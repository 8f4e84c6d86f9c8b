-- ===== src/Chain/Titles.antt =====
-- The titles of _derive_issue_title in core/orchestration/chain.py.
use Prim.Native.String.{String as Text}
use meta_agent.Common.{ℕ, zero, suc, ◌≤◌, String, ◌≢◌, ◌==◌, if◌then◌else◌, arith, eq_iff, refl, ap}
use meta_agent.Chain.{take_text, max_issue_title_len, derive_issue_title, or_bug_fix}

-- the number of code points of a text
unfoldable pub text_length : String → ℕ
text_length Text.[] = 0
text_length (Text.◌∷◌ c s) = suc (text_length s)

pub length-take_text : (n : ℕ) (s : String) → text_length (take_text n s) ≤ n
unfolding take_text text_length
length-take_text zero s = omega arith
length-take_text (suc n) Text.[] = omega arith
length-take_text (suc n) (Text.◌∷◌ c s) = omega (arith, length-take_text n s)

suc_ne : (n : ℕ) → suc n ≢ 0
suc_ne n = ground arith

or_bug_fix-ne : (line : String) → or_bug_fix line ≢ ""
or_bug_fix-ne line = ground (arith, eq_iff line "", eq_iff "bug fix" "")

take_text-ne : (n : ℕ) (s : String) → s ≢ "" → take_text (suc n) s ≢ ""
unfolding take_text text_length
take_text-ne n Text.[] h = absurd (h refl)
take_text-ne n (Text.◌∷◌ c s) h = λ e. absurd (suc_ne _ (ap text_length e))

module _ (first_line : String → String) where
  -- Whatever the issue says, its title is not empty and has at most 72 code points.
  pub title_law :
      (issue : String)
      → (derive_issue_title first_line issue ≢ "")
        × (text_length (derive_issue_title first_line issue) ≤ max_issue_title_len)
  unfolding derive_issue_title
  title_law issue = (
    take_text-ne 71 _ (or_bug_fix-ne (if issue == "" then "" else first_line issue)),
    length-take_text 72 _,
  )
