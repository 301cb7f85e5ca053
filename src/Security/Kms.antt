-- ===== src/Security/Kms.antt =====
-- `KmsProvider`: keys by version (src/security/kms.rs). What is printed is left out.
use caminus.Prelude.{ℕ, ◌+◌, ◌%◌, ◌^◌, Option, none, some, List, [], ℕ_eq}
use caminus.Dict.Defs.{Dict, get, insert}

pub record KmsProvider : Type 0 where
  pub current_version : ℕ
  pub keys : Dict ℕ (List ℕ)

unfoldable pub new : List ℕ → KmsProvider
new initial_key = record { current_version = 1; keys = insert 1 initial_key [] }

abbrev pub get_key_by_version : ℕ → KmsProvider → Option (List ℕ)
get_key_by_version version s = get version s.keys

abbrev pub unwrap_or_default : Option (List ℕ) → List ℕ
unwrap_or_default none = []
unwrap_or_default (some key) = key

unfoldable pub get_active_key : KmsProvider → ℕ × List ℕ
get_active_key s = (s.current_version, unwrap_or_default (get_key_by_version s.current_version s))

-- The addition is that of `u32`.
unfoldable pub rotate_key : List ℕ → KmsProvider → ℕ × KmsProvider
rotate_key new_key s =
    let next_version = (s.current_version + 1) % 2 ^ 32 in
    (
      next_version,
      record { current_version = next_version; keys = insert next_version new_key s.keys },
    )
