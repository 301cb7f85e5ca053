-- ===== src/Security/Fields.antt =====
-- What masking does to each field.
use caminus.Prelude.{
  ℕ, ◌+◌, ◌*◌, ◌%◌, ◌^◌, List, ◌++◌, ◌≡◌, refl, sym, ap, ◌∙◌, subst, Option, none, some, [], ◌∷◌,
  Bool-cases, inl, inr, arith,
}
use mathlib.Core.Option
use mathlib.Core.Path.{ap₂}
use caminus.Text.Defs.{Text, codes, text_beq, text_beq_iff, text_eq}
use caminus.Text.Decimal.{to_string}
use caminus.Text.Hex.{hex_bytes, hex16}
use caminus.Dict.Defs.{Dict, get, keys, update}
use caminus.Dict.Laws.{get-update, keys-update, IsMap}
use caminus.Json.Value.{
  Value, string, object, Fields, entries, entries-from_entries, get_field, as_object,
}
use caminus.Security.Kms.{KmsProvider, get_active_key}
use caminus.Security.Engine.{
  MaskingRule, redact, hash, encrypt, hash_bytes, hash_value, encrypted, without_kms, encrypt_value,
  PayloadSecurityEngine, apply_rule, apply_rules, transform_value,
}

-- The hash without its wrap-around: each byte is added to 33 times what is before it.
unfoldable pub horner : ℕ → Text → ℕ
horner h [] = h
horner h (b ∷ bs) = horner (33 * h + b) bs

hash_bytes-horner : (h : ℕ) (s : Text) → hash_bytes (h % 2 ^ 64) s ≡ horner h s % 2 ^ 64
unfolding hash_bytes horner
hash_bytes-horner h [] = refl
hash_bytes-horner h (b ∷ bs) =
    let step : ((h % 2 ^ 64 * 32 % 2 ^ 64 + h % 2 ^ 64) % 2 ^ 64 + b) % 2 ^ 64
        ≡ (33 * h + b) % 2 ^ 64 =
      omega arith in
    ap (λ n. hash_bytes n bs) step ∙ hash_bytes-horner (33 * h + b) bs

-- What an encrypted value shows: the active key's version, the key, and what is printed of the value.
abbrev pub ciphertext : ℕ × List ℕ → Text → Text
ciphertext (version, key) printed =
    codes "ENC:v" ++ (to_string version ++ (b':' ∷ (hex_bytes key ++ (b':' ∷ hex_bytes printed))))

module _ (print : Value → Text) where
  -- The value of a field under the rule for its name, if there is one. A hash is taken of texts only,
  -- and without keys only texts are replaced where they should be encrypted.
  abbrev pub masked : Option KmsProvider → Option MaskingRule → Value → Value
  masked kms none v = v
  masked kms (some redact) v = string (codes "[REDACTED]")
  masked kms (some hash) (string s) = string (hex16 (horner 5381 s % 2 ^ 64))
  masked kms (some hash) v = v
  masked (some kms) (some encrypt) v = string (ciphertext (get_active_key kms) (print v))
  masked none (some encrypt) (string s) = string (codes "[ENCRYPTED_WITHOUT_KMS]")
  masked none (some encrypt) v = v

  apply_rule-masked :
      (kms : Option KmsProvider) (rule : MaskingRule) (v : Value)
      → apply_rule print kms rule v ≡ masked kms (some rule) v
  unfolding apply_rule hash_value encrypt_value encrypted without_kms
  apply_rule-masked kms redact v = refl
  apply_rule-masked kms hash (string s) = ap (λ n. string (hex16 n)) (hash_bytes-horner 5381 s)
  apply_rule-masked kms hash v = refl
  apply_rule-masked (some kms) encrypt v = refl
  apply_rule-masked none encrypt (string s) = refl
  apply_rule-masked none encrypt v = refl

  map-masked : (kms : Option KmsProvider) (o : Option Value) → Option.map (masked kms none) o ≡ o
  map-masked kms none = refl
  map-masked kms (some v) = refl

  map-same :
      {f g : Value → Value} (same : (v : Value) → f v ≡ g v) (o : Option Value)
      → Option.map f o ≡ Option.map g o
  map-same same none = refl
  map-same same (some v) = ap some (same v)

  get-apply_rules :
      (kms : Option KmsProvider) (rules : Dict Text MaskingRule) (m : Dict Text Value) (k : Text)
      → IsMap rules
      → get k (apply_rules print kms rules m) ≡ Option.map (masked kms (get k rules)) (get k m)
  unfolding apply_rules get
  get-apply_rules kms [] m k valid = sym (map-masked kms (get k m))
  get-apply_rules kms ((j, rule) ∷ rules) m k valid =
      let ih = get-apply_rules kms rules (update j (apply_rule print kms rule) m) k valid.1 in
      let u = get-update j k (apply_rule print kms rule) m in
      elim (Bool-cases (text_beq j k)) [
        | inl same ↦
            let e : j ≡ k = (text_beq_iff j k).0 same in
            let gone : get k rules ≡ none = subst (λ i. get i rules ≡ none) e valid.0 in
            let u' : get k (update j (apply_rule print kms rule) m)
                ≡ Option.map (masked kms (some rule)) (get k m) =
              ground (arith, u, same) ∙ map-same (apply_rule-masked kms rule) (get k m) in
            rw same (ih ∙ ap₂ (λ r o. Option.map (masked kms r) o) gone u' ∙ map-masked kms _)
        | inr other ↦
            let u' : get k (update j (apply_rule print kms rule) m) ≡ get k m =
              ground (arith, u, other) in
            rw other (ih ∙ ap (λ o. Option.map (masked kms (get k rules)) o) u')
      ]

  keys-apply_rules :
      (kms : Option KmsProvider) (rules : Dict Text MaskingRule) (m : Dict Text Value)
      → keys (apply_rules print kms rules m) ≡ keys m
  unfolding apply_rules
  keys-apply_rules kms [] m = refl
  keys-apply_rules kms ((j, rule) ∷ rules) m =
      keys-apply_rules kms rules (update j (apply_rule print kms rule) m)
      ∙ keys-update j (apply_rule print kms rule) m

  -- The fields of a masked object are those of the object, in the same order. A field without a rule
  -- keeps its value. One that is redacted has the same text whatever its value was; of a text to be
  -- hashed there is the hash, in which each byte is added to 33 times what is before it, from 5381,
  -- modulo 2 ^ 64, and other values stay; and one to be encrypted has the version of the active key,
  -- the key and the printed value, or, where there are no keys, a fixed text in place of a text.
  pub get-transform_value :
      (s : PayloadSecurityEngine) (fs : Fields) (k : Text)
      → IsMap s.field_rules
      → (Option.map keys (as_object (transform_value print s (object fs)))
          ≡ some (keys (entries fs)))
        × (get_field k (transform_value print s (object fs))
            ≡ Option.map (masked s.kms_provider (get k s.field_rules)) (get_field k (object fs)))
  unfolding transform_value get_field as_object
  get-transform_value s fs k valid =
      let e = entries-from_entries (apply_rules print s.kms_provider s.field_rules (entries fs)) in
      (
        ap (λ m. some (keys m)) e
            ∙ ap some (keys-apply_rules s.kms_provider s.field_rules (entries fs)),
        ap (get k) e ∙ get-apply_rules s.kms_provider s.field_rules (entries fs) k valid,
      )
