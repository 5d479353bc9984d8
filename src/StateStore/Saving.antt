-- ===== src/StateStore/Saving.antt =====
-- Saving and loading the state file of internal/daemon/state.go.
use nft.Base.{Bool-cases, Option, Option-cases, arith, inl, inr, none, ok, refl, some, true, ◌≡◌}
use nft.Base.Int.{pos}
use nft.Owners.{OwnerRuleset}
use nft.StateStore.{
  AgentMeta, Codec, Disk, Loaded, SaveError, Saves, decode_at, decode_state, load_state, loaded,
  or_empty, save_bytes, save_state, state_file,
}

-- What encoding/json promises of a state that it writes: the version and the state are read back.
abbrev pub RoundTrips {ℓ} : {B : Type ℓ} → Codec B → OwnerRuleset → AgentMeta → Type ℓ
RoundTrips {B = B} c owners meta =
    (b : B)
    → c.marshal (state_file owners meta) ≡ some b
    → (c.version_of b ≡ some (pos 4)) × (c.as_v4 b ≡ some (state_file owners meta))

unfoldable pub after_save : Option SaveError → Loaded → Loaded → Loaded
after_save none written kept = written
after_save (some e) written kept = kept

module _ {ℓ} {B : Type ℓ} (c : Codec B) where
  decode_state-marshal :
      (owners : OwnerRuleset) (meta : AgentMeta)
      → RoundTrips c owners meta
      → (b : B) → c.marshal (state_file owners meta) ≡ some b
      → decode_state c b ≡ ok (owners, meta)
  unfolding decode_state decode_at loaded or_empty
  decode_state-marshal owners meta trips b e = rw ((trips b e).0, (trips b e).1, decode_state) refl

  load_state-save_bytes :
      (w : Saves B) (owners : OwnerRuleset) (meta : AgentMeta) (b : B) (d : Disk B)
      → decode_state c b ≡ ok (owners, meta)
      → load_state c true (save_bytes c w b d).1
        ≡ after_save (save_bytes c w b d).0 (ok (owners, meta)) (load_state c true d)
  unfolding load_state save_bytes after_save
  load_state-save_bytes w owners meta b d back = ground arith

  -- When every text that the encoder gives for a state is read back as that state, a save that reports
  -- success makes the file load as what was saved, and a save that reports an error, at whatever step,
  -- leaves the file loading as it did before.
  pub load_state-save_state :
      (w : Saves B) (owners : OwnerRuleset) (meta : AgentMeta) (d : Disk B)
      → RoundTrips c owners meta
      → load_state c true (save_state c w owners meta d).1
        ≡ after_save (save_state c w owners meta d).0 (ok (owners, meta)) (load_state c true d)
  unfolding load_state save_state save_bytes after_save
  load_state-save_state w owners meta d trips =
      elim (Option-cases (c.marshal (state_file owners meta))) [
        | inl e ↦ rw e (elim (Bool-cases w.makes_dir) [
          | inl made ↦ rw made refl
          | inr failed ↦ rw failed refl
        ])
        | inr (b, e) ↦ rw e (elim (Bool-cases w.makes_dir) [
          | inl made ↦
              rw made (
                load_state-save_bytes w owners meta b d
                  (decode_state-marshal owners meta trips b e))
          | inr failed ↦ rw failed refl
        ])
      ]

  -- A save that reports an error has not touched the file.
  pub file-save_state :
      (w : Saves B) (owners : OwnerRuleset) (meta : AgentMeta) (d : Disk B) (e : SaveError)
      → (save_state c w owners meta d).0 ≡ some e
      → (save_state c w owners meta d).1.file ≡ d.file
  unfolding save_state save_bytes
  file-save_state w owners meta d e failed = ground arith
