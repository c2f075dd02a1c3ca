-- ===== src/Windows/Handles.antt =====
-- Class `UniqueHandle` of src/internal/unique_handle.h, over any traits: the calls on the objects of a
-- program, and the handles that were closed.
pub mod Ledger
use sdk_windows.Prelude.{ℕ, Bool, true, false, List, [], ◌∷◌, ◌==◌, if◌then◌else◌, not}

-- An object's value, with what the calls of `Traits::Close` were given so far.
pub record Handles : Type 0 where
  pub value : ℕ
  pub closed : List ℕ

-- `Traits::Invalid()` is 0 or a null pointer in all of the traits.
abbrev pub invalid : ℕ
invalid = 0

unfoldable pub reset : ℕ → Handles → Handles
reset new h = record {
  value = new;
  closed = if not (h.value == invalid) then h.value ∷ h.closed else h.closed;
}

-- The previous value, and the object behind it.
unfoldable pub release : Handles → ℕ × Handles
release h = (h.value, record h { value = invalid })

unfoldable pub is_held : Handles → Bool
is_held h = not (h.value == invalid)

-- `Put()`, with what the API behind it writes at the address: a handle, or nothing.
unfoldable pub put : ℕ → Handles → Handles
unfolding reset
put written h = record (reset invalid h) { value = written }

-- The destructor.
unfoldable pub destroy : Handles → Handles
unfolding reset
destroy h = reset invalid h

-- Two objects that close into one list: the move assignment `*this = std::move(other)`, and the move
-- constructor.
pub record Pair : Type 0 where
  pub this_value : ℕ
  pub other_value : ℕ
  pub closed : List ℕ

unfoldable pub move_assign : Bool → Pair → Pair
unfolding reset release
move_assign same p =
    if same
    then p
    else let (taken, other) = release (record { value = p.other_value; closed = p.closed }) in
      let this = reset taken (record { value = p.this_value; closed = p.closed }) in
      record { this_value = this.value; other_value = other.value; closed = this.closed }

unfoldable pub move_construct : Handles → Handles × Handles
unfolding release
move_construct other =
    let (taken, left) = release other in (record { value = taken; closed = other.closed }, left)
