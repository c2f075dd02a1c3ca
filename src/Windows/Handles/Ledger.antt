-- ===== src/Windows/Handles/Ledger.antt =====
-- The ledger of the handles of two objects of `UniqueHandle` (src/internal/unique_handle.h), under any
-- sequence of its calls.
use sdk_windows.Prelude.{
  ℕ, ◌+◌, ◌≡◌, ◌≢◌, arith, true, false, not, List, [], ◌∷◌, ◌==◌, if◌then◌else◌,
}
use sdk_windows.Windows.Handles
use sdk_windows.Windows.Handles.{Handles, invalid, destroy, Pair, move_assign, move_construct}

-- Which of the two objects.
pub data Side : Type 0 where
  this other : Side

-- The calls on the two objects. `put` and `reset` bring a handle in; `assign to from` is
-- `to = std::move(from)`, also on one object; `construct to` ends the object there and constructs one in
-- its place by `UniqueHandle(std::move(...))` of the other object.
pub data Op : Type 0 where
  put reset : Side → ℕ → Op
  release construct : Side → Op
  assign : Side → Side → Op

-- The objects, the handles that came in, and those that `Release` gave to the caller.
pub record Ledger : Type 0 where
  pub pair : Pair
  pub acquired : List ℕ
  pub given : List ℕ

abbrev pub empty_ledger : Ledger
empty_ledger = record {
  pair = record { this_value = invalid; other_value = invalid; closed = [] };
  acquired = [];
  given = [];
}

-- A call on one of the two.
abbrev on : Side → (Handles → Handles) → Pair → Pair
on this f p =
    let h = f (record { value = p.this_value; closed = p.closed }) in
    record { this_value = h.value; other_value = p.other_value; closed = h.closed }
on other f p =
    let h = f (record { value = p.other_value; closed = p.closed }) in
    record { this_value = p.this_value; other_value = h.value; closed = h.closed }

abbrev value_at : Side → Pair → ℕ
value_at this p = p.this_value
value_at other p = p.other_value

-- The two objects seen from the other one.
abbrev swapped : Pair → Pair
swapped p = record p { this_value = p.other_value; other_value = p.this_value }

abbrev assign_at : Side → Side → Pair → Pair
assign_at this other p = move_assign false p
assign_at other this p = swapped (move_assign false (swapped p))
assign_at this this p = move_assign true p
assign_at other other p = swapped (move_assign true (swapped p))

-- The destructor of the one object, and the constructor from the other.
abbrev rebuilt : Pair → Pair
rebuilt p =
    let ended = on this destroy p in
    let (made, left) =
      move_construct (record { value = ended.other_value; closed = ended.closed }) in
    record { this_value = made.value; other_value = left.value; closed = left.closed }

abbrev construct_at : Side → Pair → Pair
construct_at this p = rebuilt p
construct_at other p = swapped (rebuilt (swapped p))

unfoldable pub step : Op → Ledger → Ledger
step (put side h) l = record l { pair = on side (Handles.put h) l.pair; acquired = h ∷ l.acquired }
step (reset side h) l = record l {
  pair = on side (Handles.reset h) l.pair;
  acquired = h ∷ l.acquired;
}
step (release side) l = record l {
  pair = on side (λ (h : Handles). (Handles.release h).1) l.pair;
  given = value_at side l.pair ∷ l.given;
}
step (assign to from) l = record l { pair = assign_at to from l.pair }
step (construct to) l = record l { pair = construct_at to l.pair }

unfoldable pub run_ops : List Op → Ledger → Ledger
run_ops [] l = l
run_ops (op ∷ ops) l = run_ops ops (step op l)

-- Both destructors, the second object's first.
unfoldable pub end_scope : Ledger → Ledger
end_scope l = record l { pair = on this destroy (on other destroy l.pair) }

abbrev pub one : ℕ → ℕ → ℕ
one x y = if x == y then 1 else 0

unfoldable pub count : ℕ → List ℕ → ℕ
count x [] = 0
count x (y ∷ ys) = one x y + count x ys

-- What came in is closed, given away or held.
record IsBalanced (x : ℕ) (l : Ledger) : Type 0 where
  balance :
      count x l.acquired
      ≡ count x l.pair.closed + count x l.given + one x l.pair.this_value + one x l.pair.other_value

count-closed :
    (x v : ℕ) (closed : List ℕ)
    → x ≢ 0
    → count x (if not (v == 0) then v ∷ closed else closed) ≡ one x v + count x closed
unfolding count
count-closed x v closed some_handle = ground arith

module _ (x : ℕ) (l : Ledger) (some_handle : x ≢ 0) (i : IsBalanced x l) where
  held_now :
      count x l.acquired
      ≡ count x l.pair.closed + count x l.given + one x l.pair.this_value + one x l.pair.other_value
  held_now = i.balance

  this_closed :
      count x
        (if not (l.pair.this_value == 0) then l.pair.this_value ∷ l.pair.closed else l.pair.closed)
      ≡ one x l.pair.this_value + count x l.pair.closed
  this_closed = count-closed x l.pair.this_value l.pair.closed some_handle

  other_closed :
      count x (
        if not (l.pair.other_value == 0) then l.pair.other_value ∷ l.pair.closed else l.pair.closed)
      ≡ one x l.pair.other_value + count x l.pair.closed
  other_closed = count-closed x l.pair.other_value l.pair.closed some_handle

  invalid_none : one x 0 ≡ 0
  invalid_none = ground arith

  step-IsBalanced : (op : Op) → IsBalanced x (step op l)
  unfolding step Handles.put Handles.reset Handles.release move_assign move_construct destroy count
  step-IsBalanced (put this h) = record { balance = omega (arith, held_now, this_closed) }
  step-IsBalanced (put other h) = record { balance = omega (arith, held_now, other_closed) }
  step-IsBalanced (reset this h) = record { balance = omega (arith, held_now, this_closed) }
  step-IsBalanced (reset other h) = record { balance = omega (arith, held_now, other_closed) }
  step-IsBalanced (release this) = record { balance = omega (arith, held_now, invalid_none) }
  step-IsBalanced (release other) = record { balance = omega (arith, held_now, invalid_none) }
  step-IsBalanced (assign this this) = record { balance = omega (arith, held_now) }
  step-IsBalanced (assign this other) = record {
    balance = omega (arith, held_now, this_closed, invalid_none);
  }
  step-IsBalanced (assign other this) = record {
    balance = omega (arith, held_now, other_closed, invalid_none);
  }
  step-IsBalanced (assign other other) = record { balance = omega (arith, held_now) }
  step-IsBalanced (construct this) = record {
    balance = omega (arith, held_now, this_closed, invalid_none);
  }
  step-IsBalanced (construct other) = record {
    balance = omega (arith, held_now, other_closed, invalid_none);
  }

run_ops-IsBalanced :
    (x : ℕ) (ops : List Op) (l : Ledger) → x ≢ 0 → IsBalanced x l → IsBalanced x (run_ops ops l)
unfolding run_ops
run_ops-IsBalanced x [] l some_handle i = i
run_ops-IsBalanced x (op ∷ ops) l some_handle i =
    run_ops-IsBalanced x ops (step op l) some_handle (step-IsBalanced x l some_handle i op)

empty-IsBalanced : (x : ℕ) → one x 0 ≡ 0 → IsBalanced x empty_ledger
unfolding count
empty-IsBalanced x z = record { balance = omega (arith, z) }

-- After any sequence of calls on two objects (`Put`, `Reset` and `Release` on either, move assignments
-- in both directions and of an object to itself, move constructions) and their destructors, each handle was closed exactly as
-- often as it came in and was not released to the caller: none is lost, and none is closed twice.
pub end_scope-count :
    (x : ℕ) (ops : List Op)
    → x ≢ 0
    → count x (end_scope (run_ops ops empty_ledger)).acquired
      ≡ count x (end_scope (run_ops ops empty_ledger)).pair.closed
        + count x (end_scope (run_ops ops empty_ledger)).given
unfolding end_scope destroy Handles.reset
end_scope-count x ops some_handle =
    let l = run_ops ops empty_ledger in
    let z : one x 0 ≡ 0 = ground arith in
    let i = run_ops-IsBalanced x ops empty_ledger some_handle (empty-IsBalanced x z) in
    let b = i.balance in
    let c = count-closed x l.pair.other_value l.pair.closed some_handle in
    let d =
      count-closed x l.pair.this_value
        (if not (l.pair.other_value == 0)
          then l.pair.other_value ∷ l.pair.closed
          else l.pair.closed)
        some_handle in
    omega (arith, b, c, d)
