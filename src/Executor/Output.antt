-- ===== src/Executor/Output.antt =====
-- src/jvc/execution/executor.py: the bounded output of Git reads.
use jvc_core.Base.{
  ℕ, zero, suc, ◌+◌, ◌*◌, Bool, not, ◌&&◌, [], ◌∷◌, Text, Bytes, encode, length, is_empty, ltb,
  if◌then◌else◌,
}

-- `text[:-1]`
unfoldable pub drop_last : Text → Text
drop_last [] = []
drop_last (c ∷ []) = []
drop_last (c ∷ d ∷ s) = c ∷ drop_last (d ∷ s)

-- The loop, on fuel.
unfoldable pub shrink : ℕ → ℕ → Text → Text
shrink zero max_bytes s = s
shrink (suc n) max_bytes s =
    let rest = shrink n max_bytes (drop_last s) in
    if ltb max_bytes (length (encode s)) && not (is_empty s) then rest else s

-- With the decoding of UTF-8 that replaces errors. Each round drops a character.
unfoldable pub fit_bytes : (Bytes → Text) → Bytes → ℕ → Text
fit_bytes decode raw max_bytes = shrink (length (decode raw)) max_bytes (decode raw)

-- What `_run_git_capped` returns.
pub record Capped : Type 0 where
  pub returncode : ℕ
  pub out : Bytes
  pub error : Bytes
  pub out_truncated : Bool
  pub error_truncated : Bool

pub record CappedRead : Type 0 where
  pub exit_code : ℕ
  pub output : Text
  pub error : Text
  pub truncated : Bool
  pub error_truncated : Bool

abbrev pub first_bytes : ℕ → Bytes → Bytes
first_bytes zero b = []
first_bytes (suc n) [] = []
first_bytes (suc n) (c ∷ b) = c ∷ first_bytes n b

-- The bound on the bytes read of the error stream.
abbrev pub error_bytes : ℕ
error_bytes = 32 * 1024

unfoldable pub capped_git_read : (Bytes → Text) → ℕ → Capped → CappedRead
capped_git_read decode max_bytes r = record {
  exit_code = r.returncode;
  output = fit_bytes decode (first_bytes (max_bytes + 1) r.out) max_bytes;
  error = fit_bytes decode (first_bytes (error_bytes + 1) r.error) error_bytes;
  truncated = r.out_truncated;
  error_truncated = r.error_truncated;
}
