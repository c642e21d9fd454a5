-- ===== src/Messages/Update/Sent.antt =====
-- server/replication_messages/update_message.rs: what `write` gives for a message that stands for a
-- content.
use bevy_mod_replication.Common.{
  ℕ, ◌+◌, ◌≡◌, refl, Bool, true, not, ◌||◌, some, ◌∷◌, ◌++◌, length, arith, length-append, ok,
  debug_assert-true, ==_self, ◌==◌,
}
use bevy_mod_replication.Backend.Server.{Bytes}
use bevy_mod_replication.Wire.{Wire}
use bevy_mod_replication.Messages.{Range, len, is_empty}
use bevy_mod_replication.Messages.Flags.{iter_names, flags_of-Ends}
use bevy_mod_replication.Messages.Slices.{Holds, slice-Holds, len-Holds}
use bevy_mod_replication.Messages.Update.{UpdateMessage, has, flags, write}
use bevy_mod_replication.Messages.Update.Content.{Content, Represents}
use bevy_mod_replication.Messages.Update.Written.{
  encode, write_sections-encode, sections_size-encode,
}

-- A message that is sent has more than mappings.
abbrev pub IsSendable : UpdateMessage → Type 0
IsSendable m = has m.despawns || (has m.removals || has m.changes) ≡ true

module _ {Component : Type 0} (w : Wire Component) where
  -- A message that stands for a content and has more than mappings is written, in every build, as its
  -- flags, the tick and the sections of the content that the flags name: no slice is out of range,
  -- the assertion on the precalculated size holds, and no section is skipped.
  pub write-encode :
      (checks : Bool) (s : Bytes) (m : UpdateMessage) (c : Content Component) (server_tick : Range)
      (tick : ℕ)
      → Represents w s m c
      → Holds s server_tick (w.tick tick)
      → IsSendable m
      → write w checks m s server_tick
        ≡ ok (some (flags m ∷ (w.tick tick ++ encode w c (iter_names (flags m)))))
  unfolding write flags
  write-encode checks s m c server_tick tick h k sendable =
      let ends =
        flags_of-Ends checks (not (is_empty m.mappings)) (has m.despawns) (has m.removals)
          (has m.changes) sendable in
      let bytes = encode w c (iter_names (flags m)) in
      let size : length (flags m ∷ (w.tick tick ++ bytes)) ≡ 1 + len server_tick + length bytes =
        omega (arith, length-append (w.tick tick) bytes, len-Holds s server_tick _ k) in
      let fits : (length (flags m ∷ (w.tick tick ++ bytes)) == 1 + len server_tick + length bytes)
          ≡ true =
        rw size (==_self (1 + len server_tick + length bytes)) in
      rw
        (
          ends.1,
          sections_size-encode w s m c h checks ends.0 _ ends.2,
          slice-Holds s server_tick _ k,
        )
        (rw (write_sections-encode w s m c h ends.0 _ (flags m ∷ w.tick tick) ends.2)
          (rw (fits, debug_assert-true checks) refl))
