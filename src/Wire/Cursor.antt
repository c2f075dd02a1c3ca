-- ===== src/Wire/Cursor.antt =====
-- The pointer and the remaining length that the log and signature-list walks keep in step.
use sdk_windows.Prelude.{
  ℕ, ◌+◌, ◌-◌, ◌≤◌, ◌≡◌, arith, Bytes, length, length-drop, drop, drop-drop, Outcome, ok, fault,
  Returns, returns, leb, le→leb, if◌then◌else◌, ◌++◌, drop-append, sym, ◌∙◌, ap, length-append,
  take-append,
}
use sdk_windows.Wire.{slice}

pub record Cursor : Type 0 where
  pub pos : ℕ
  pub remaining : ℕ

-- `p += n; remaining -= n`. The subtraction is unsigned: below zero it is a fault of the model.
unfoldable pub advance : Cursor → ℕ → Outcome Cursor
advance c n =
    if leb n c.remaining
    then ok (record { pos = c.pos + n; remaining = c.remaining - n })
    else fault

-- The invariant of both walks.
abbrev pub InBounds : Bytes → Cursor → Type 0
InBounds raw c = c.pos + c.remaining ≡ length raw

pub record Advanced (raw : Bytes) (c : Cursor) (n : ℕ) (d : Cursor) : Type 0 where
  pub in_bounds : InBounds raw d
  pub pos_is : d.pos ≡ c.pos + n
  pub remaining_is : d.remaining + n ≡ c.remaining

pub advance-Returns :
    (raw : Bytes) (c : Cursor) (n : ℕ)
    → InBounds raw c
    → n ≤ c.remaining
    → Returns (Advanced raw c n) (advance c n)
unfolding advance
advance-Returns raw c n b h = rw (le→leb n c.remaining h) (returns (omega arith))

-- What the cursor still has in front of it.
pub record Faces (raw : Bytes) (c : Cursor) (xs : Bytes) : Type 0 where
  pub in_bounds : InBounds raw c
  pub ahead : drop c.pos raw ≡ xs

abbrev pub past : Cursor → ℕ → Cursor
past c n = record { pos = c.pos + n; remaining = c.remaining - n }

module _ {raw : Bytes} {c : Cursor} where
  pub Faces-remaining : {xs : Bytes} → Faces raw c xs → c.remaining ≡ length xs
  Faces-remaining f = omega (arith, ap length f.ahead, length-drop c.pos raw)

  pub advance-Faces :
      (n : ℕ) (front rest : Bytes)
      → Faces raw c (front ++ rest)
      → n ≡ length front
      → (advance c n ≡ ok (past c n)) × Faces raw (past c n) rest
  unfolding advance
  advance-Faces n front rest f e =
      let fits : n ≤ c.remaining = omega (arith, Faces-remaining f, length-append front rest) in
      (
        rw (le→leb n c.remaining fits),
        record {
          in_bounds = omega (arith, f.in_bounds);
          ahead =
              sym (drop-drop c.pos n (c.pos + n) raw (omega arith))
              ∙ rw f.ahead (drop-append front rest n e);
        },
      )

  pub slice-Faces :
      (n : ℕ) (front rest : Bytes)
      → Faces raw c (front ++ rest)
      → n ≡ length front
      → slice raw c.pos n ≡ ok front
  unfolding slice
  slice-Faces n front rest f e =
      let fits : c.pos + n ≤ length raw =
        omega (arith, f.in_bounds, Faces-remaining f, length-append front rest) in
      rw (le→leb (c.pos + n) (length raw) fits, f.ahead) (ap ok (take-append front rest n e))
