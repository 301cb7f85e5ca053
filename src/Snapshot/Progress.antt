-- ===== src/Snapshot/Progress.antt =====
-- The progress that is saved when the workers have ended.
use caminus.Prelude.{
  ℕ, ◌+◌, ◌*◌, ◌<◌, ◌≡◌, sym, ap, ◌∙◌, true, false, some, List, [], ◌++◌, Result, ok, length, arith,
  inl, inr, append-nil,
}
use mathlib.Core.Path.{ap₂}
use caminus.Text.Defs.{Text, codes, text_beq}
use caminus.Text.Utf8.{is_utf8, is_utf8-ascii-append}
use caminus.Text.Decimal.{to_string, to_string-ascii}
use caminus.Storage.Database.{Database, Serde}
use caminus.Storage.Store.{Error, save_offset, get_offset}
use caminus.Storage.Laws.{get-save_offset}
use caminus.Snapshot.Defs.{u64_mod, u32_mod, ChunkRange, new, completed_count, Run, Steps}
use caminus.Snapshot.Outcome.{start, run-Outcome}

abbrev pub progress_key : Text → Text
progress_key table_name = table_name ++ codes "_snapshot_progress"

abbrev pub progress_text : ℕ → ℕ → Text
progress_text completed total = to_string completed ++ (codes "/" ++ to_string total)

progress_text-utf8 : (a b : ℕ) → is_utf8 (progress_text a b) ≡ true
unfolding is_utf8
progress_text-utf8 a b =
    is_utf8-ascii-append (to_string a) (codes "/" ++ to_string b) (to_string-ascii a)
    ∙ ap is_utf8 (sym (append-nil (to_string b)))
    ∙ is_utf8-ascii-append (to_string b) [] (to_string-ascii b)

module _ (d : Database) (j : Serde) where
  unfoldable pub save_progress : d.State → Text → List ChunkRange → Result (Error d j) d.State
  save_progress s table_name chunks =
      save_offset d j s (progress_key table_name)
        (progress_text (completed_count chunks) (length chunks))

  -- One worker or more on the chunks of `new`, when they have taken all their steps, in any order: if
  -- the progress is then saved, it is read back as that of all chunks, and the offset of every other
  -- source is what it was.
  progress_of_run :
      (s s' : d.State) (table_name : Text) (total size n : ℕ) (cs : List ChunkRange) (t : Run)
      → 0 < size
      → total + size < u64_mod
      → total < u32_mod
      → new (total + 1) total size ≡ some cs
      → 0 < n
      → Steps (start cs n) (2 * length cs + n) t
      → save_progress s table_name t.chunks ≡ ok s'
      → (get_offset d j s' (progress_key table_name)
          ≡ ok (some (progress_text (length cs) (length cs))))
        × ((other : Text)
            → text_beq (progress_key table_name) other ≡ false
            → get_offset d j s' other ≡ get_offset d j s other)
  unfolding save_progress
  progress_of_run s s' table_name total size n cs t pos fits small made some_worker steps saved =
      elim (run-Outcome total size n (2 * length cs + n) cs t pos fits small made some_worker
        steps) [
          | inl unfinished ↦ absurd (omega (arith, unfinished.0))
          | inr (steps_done, all, none_lost, stopped) ↦
              let counted = ap₂ progress_text all none_lost in
              let (mine, others, schemas) =
                get-save_offset d j s s' (progress_key table_name)
                  (progress_text (completed_count t.chunks) (length t.chunks))
                  (progress_text-utf8 (completed_count t.chunks) (length t.chunks)) saved in
              (mine ∙ ap (λ text. ok (some text)) counted, others)
        ]
