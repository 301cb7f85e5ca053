-- ===== src/Security/Rotation.antt =====
-- Rotation keeps the keys of all versions.
use mathlib.Core.Path.{ap₂}
use caminus.Prelude.{
  ℕ, ◌+◌, ◌%◌, ◌^◌, ◌≤◌, ◌<◌, ◌≡◌, ◌↔◌, true, some, List, ℕ_eq, nat_eq_iff, arith,
}
use caminus.Dict.Defs.{get, insert, is_some}
use caminus.Dict.Laws.{get-insert}
use caminus.Security.Kms.{
  KmsProvider, new, get_key_by_version, get_active_key, rotate_key, unwrap_or_default,
}

-- There is a key for each version from 1 to the current one, and for no other.
pub record IsValid (s : KmsProvider) : Type 0 where
  pub started : 1 ≤ s.current_version
  pub versions :
      (v : ℕ) → (is_some (get_key_by_version v s) ≡ true) ↔ ((1 ≤ v) × (v ≤ s.current_version))

pub new-IsValid : (key : List ℕ) → IsValid (new key)
unfolding new insert get
new-IsValid key = record { started = omega arith; versions = λ v. ground (arith, nat_eq_iff 1 v) }

-- A rotation, while the version has room in 32 bits: the new key is the active one, under the next
-- version; every version that had a key has the same key; and the versions with a key are again those
-- from 1 to the current one.
pub rotate_key-IsValid :
    (key : List ℕ) (s : KmsProvider)
    → s.current_version + 1 < 2 ^ 32
    → IsValid s
    → IsValid (rotate_key key s).1
      × (get_active_key (rotate_key key s).1 ≡ (s.current_version + 1, key))
      × ((v : ℕ)
          → v ≤ s.current_version
          → get_key_by_version v (rotate_key key s).1 ≡ get_key_by_version v s)
unfolding rotate_key get_active_key
rotate_key-IsValid key s room valid =
    let n : (s.current_version + 1) % 2 ^ 32 ≡ s.current_version + 1 = omega arith in
    let found = λ (v : ℕ). get-insert ((s.current_version + 1) % 2 ^ 32) v key s.keys in
    let active : get ((s.current_version + 1) % 2 ^ 32)
          (insert ((s.current_version + 1) % 2 ^ 32) key s.keys)
        ≡ some key =
      ground (
        arith,
        found ((s.current_version + 1) % 2 ^ 32),
        nat_eq_iff ((s.current_version + 1) % 2 ^ 32) ((s.current_version + 1) % 2 ^ 32),
      ) in
    (
      record {
        started = omega (arith, n);
        versions = λ v.
            ground (
              arith,
              n,
              found v,
              nat_eq_iff ((s.current_version + 1) % 2 ^ 32) v,
              valid.versions v,
            );
      },
      ap₂ (λ v k. (v, unwrap_or_default k)) n active,
      λ v old. ground (arith, n, found v, nat_eq_iff ((s.current_version + 1) % 2 ^ 32) v),
    )
