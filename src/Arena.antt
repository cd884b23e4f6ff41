-- ===== src/Arena.antt =====
-- src/db/arena_allocator.h: the allocator of the values of a table, for items of one byte. An extent
-- is its number, in the order of allocation, and a pointer an extent and an offset in it.
use hedge_db.Base.{
  ℕ, ◌+◌, ◌*◌, ◌≤◌, ◌≡◌, refl, arith, ltb, if◌then◌else◌, Option, some, none, max, Bool-cases, inl,
  inr, ◌⊎◌, ltb→le,
}
use native.Mathlib.Nat.{add-mul}
use hedge_db.Utils.{round_up}

pub record Arena : Type 0 where
  pub budget : ℕ
  pub extent_size : ℕ
  pub items_per_extent : ℕ
  pub total_allocated : ℕ
  pub curr_extent : Option ℕ
  pub current_slot_index : ℕ
  pub extents : ℕ

-- `_allocate_new_extent`, where `posix_memalign` succeeds.
unfoldable pub allocate_new_extent : Arena → Arena × Option ℕ
allocate_new_extent a = if ltb a.budget (a.total_allocated + a.extent_size) then (a, none) else (
  record a { total_allocated = a.total_allocated + a.extent_size; extents = a.extents + 1 },
  some a.extents,
)

-- The constructor with the default size of an extent; its budget argument is only rounded for the
-- reservation of the vector.
unfoldable pub arena_allocator : ℕ → Arena
arena_allocator budget =
    let extent_size = max (4 * 1024 * 1024) 4096 in
    let r = allocate_new_extent (record {
      budget = budget;
      extent_size = extent_size;
      items_per_extent = max extent_size 1;
      total_allocated = 0;
      curr_extent = none;
      current_slot_index = 0;
      extents = 0;
    }) in
    record r.0 { curr_extent = r.1 }

-- The end of `_allocate_many_impl`, in the current extent.
abbrev pub take_slots : ℕ → Arena → Option ℕ → Arena × Option (ℕ × ℕ)
take_slots n a none = (a, none)
take_slots n a (some extent) = (
  record a { current_slot_index = a.current_slot_index + n },
  some (extent, a.current_slot_index),
)

abbrev pub in_new_extent : ℕ → Arena × Option ℕ → Arena × Option (ℕ × ℕ)
in_new_extent n (a, extent) =
    take_slots n (record a { curr_extent = extent; current_slot_index = 0 }) extent

unfoldable pub allocate_many_impl : ℕ → Arena → Arena × Option (ℕ × ℕ)
allocate_many_impl n a =
    if ltb a.items_per_extent (a.current_slot_index + n)
    then (if ltb a.items_per_extent n then (a, none) else in_new_extent n (allocate_new_extent a))
    else take_slots n a a.curr_extent

unfoldable pub allocate_many : ℕ → ℕ → Arena → Arena × Option (ℕ × ℕ)
allocate_many n alignment a = allocate_many_impl (round_up n alignment) a

-- The current extent is the last one, the items handed out lie in it, and the budget is kept.
pub record IsArena (a : Arena) : Type 0 where
  pub last : (e : ℕ) → a.curr_extent ≡ some e → e + 1 ≡ a.extents
  pub inside : a.current_slot_index ≤ a.items_per_extent
  pub paid : a.total_allocated ≡ a.extents * a.extent_size
  pub within : a.total_allocated ≤ a.budget

-- What an allocation of `n` items gives: nothing, or a place in an extent that exists, behind all
-- places given before.
pub record Placed (n : ℕ) (a a' : Arena) (extent offset : ℕ) : Type 0 where
  pub exists : extent + 1 ≡ a'.extents
  pub fits : offset + n ≤ a.items_per_extent
  pub behind : ((extent + 1 ≡ a.extents) × (a.current_slot_index ≤ offset)) ⊎ (a.extents ≤ extent)
  pub next : a'.current_slot_index ≡ offset + n
  pub invariant : IsArena a'

-- The two outcomes of an allocation.
abbrev pub Outcome : ℕ → Arena → Arena × Option (ℕ × ℕ) → Type 0
Outcome n a (a', out) =
    ((out ≡ none) × IsArena a')
    ⊎ ((place : ℕ × ℕ) × ((out ≡ some place) × Placed n a a' place.0 place.1))

abbrev pub with_extent : Arena → Arena
with_extent a = record a {
  total_allocated = a.total_allocated + a.extent_size;
  extents = a.extents + 1;
}

allocate_new_extent-cases :
    (a : Arena)
    → (allocate_new_extent a ≡ (a, none))
      ⊎ ((allocate_new_extent a ≡ (with_extent a, some a.extents))
          × (a.total_allocated + a.extent_size ≤ a.budget))
unfolding allocate_new_extent
allocate_new_extent-cases a = elim (Bool-cases (ltb a.budget (a.total_allocated + a.extent_size))) [
  | inl full ↦ inl (rw full refl)
  | inr room ↦ inr (rw room refl, ltb→le _ _ room)
]

module _ (n : ℕ) (a : Arena) (i : IsArena a) where
  new_extent-Outcome :
      n ≤ a.items_per_extent → Outcome n a (in_new_extent n (allocate_new_extent a))
  new_extent-Outcome h = elim (allocate_new_extent-cases a) [
    | inl full ↦ rw full (
        inl (
          refl,
          record {
            last = λ e same. absurd (cc);
            inside = omega arith;
            paid = i.paid;
            within = i.within;
          },
        ))
    | inr (room, cheap) ↦ rw room (
        inr (
          (a.extents, 0),
          (
            refl,
            record {
              exists = refl;
              fits = omega arith;
              behind = inr (omega arith);
              next = refl;
              invariant = record {
                last = λ e same. let eq : a.extents ≡ e = cc in omega arith;
                inside = omega arith;
                paid = omega (arith, i.paid, add-mul a.extents 1 a.extent_size);
                within = cheap;
              };
            },
          ),
        ))
  ]

  current-Outcome :
      a.current_slot_index + n ≤ a.items_per_extent
      → (e : Option ℕ) → a.curr_extent ≡ e
      → Outcome n a (take_slots n a e)
  current-Outcome h none same = inl (refl, i)
  current-Outcome h (some e) same = inr (
    (e, a.current_slot_index),
    (
      refl,
      record {
        exists = i.last e same;
        fits = h;
        behind = inl (i.last e same, omega arith);
        next = refl;
        invariant = record { last = i.last; inside = h; paid = i.paid; within = i.within };
      },
    ),
  )

  -- From a well-formed state, an allocation gives nothing, or items of an extent that exists, behind all items given before;
  -- the budget is kept.
  pub allocate_many_impl-Outcome : Outcome n a (allocate_many_impl n a)
  unfolding allocate_many_impl
  allocate_many_impl-Outcome =
      elim (Bool-cases (ltb a.items_per_extent (a.current_slot_index + n))) [
        | inr room ↦ rw room (current-Outcome (ltb→le _ _ room) a.curr_extent refl)
        | inl full ↦ elim (Bool-cases (ltb a.items_per_extent n)) [
          | inl huge ↦ rw (full, huge) (inl (refl, i))
          | inr small ↦ rw (full, small) (new_extent-Outcome (ltb→le _ _ small))
        ]
      ]
