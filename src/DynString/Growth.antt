-- ===== src/DynString/Growth.antt =====
-- The growth of a string: room for what is needed, and the overflow that the source tests for.
use arcus_c_client.Prelude.{take-append_le}
use arcus_c_client.Prelude.{
  ℕ, ◌+◌, ◌-◌, ◌^◌, ◌≤◌, ◌<◌, ◌≡◌, ◌⊎◌, refl, ◌∙◌, inl, inr, false, ◌&&◌, not, Option, some, ◌++◌,
  arith, Bool-cases, Option-cases, length, length-append, ltb, ◌==◌,
}
use arcus_c_client.ReturnCode.{ReturnCode, success, memory_allocation_failure}
use arcus_c_client.Text.{Bytes}
use arcus_c_client.DynString.{DynString, new_size, string_check, contents}

-- The memory has the size that is kept, with `end` in it, and is small enough for the address space.
pub record IsString (s : DynString) : Type 0 where
  pub sized : length s.string ≡ s.current_size
  pub inside : s.end ≤ s.current_size
  pub small : s.current_size + 1024 < 2 ^ 64

-- `realloc` gives memory of the size that is asked for, which is less than half of the address space.
pub record IsRealloc (realloc : ℕ → ℕ → Option Bytes) : Type 0 where
  pub exact :
      (old new : ℕ) (more : Bytes)
      → old ≤ new
      → realloc old new ≡ some more
      → old + length more ≡ new
  pub bounded : (old new : ℕ) (more : Bytes) → realloc old new ≡ some more → new < 2 ^ 63

-- If the size overflows, it is less than what is needed, so the test finds it.
new_size-enough :
    (s : DynString) (need : ℕ)
    → IsString s
    → need < 2 ^ 64
    → s.current_size - s.end < need
    → ltb (new_size s need) need ≡ false
    → (s.end + need ≤ new_size s need) × (s.current_size ≤ new_size s need)
unfolding new_size
new_size-enough s need h small more fine =
    let a = h.inside in
    let b = h.small in let wide : need ≤ new_size s need = ground arith in omega arith

-- Room for what is needed and the text as it was, or a string as it was.
abbrev pub Checked : DynString → ℕ → ReturnCode × DynString → Type 0
Checked s need r =
    ((r.0 ≡ success)
      × IsString r.1
      × (s.end + need ≤ r.1.current_size)
      × (r.1.end ≡ s.end)
      × (contents r.1 ≡ contents s))
    ⊎ (r ≡ (memory_allocation_failure, s))

grown-Checked :
    (s : DynString) (need : ℕ) (more : Bytes)
    → IsString s
    → s.end + need ≤ new_size s need
    → s.current_size + length more ≡ new_size s need
    → new_size s need < 2 ^ 63
    → Checked s need
        (success, record s { string = s.string ++ more; current_size = new_size s need })
grown-Checked s need more h room exact bounded =
    let inside = h.inside in
    inl (
      refl,
      record {
        sized = length-append s.string more ∙ omega (arith, h.sized);
        inside = omega arith;
        small = omega arith;
      },
      room,
      refl,
      take-append_le s.end s.string more (omega (arith, h.sized)),
    )

-- With a `realloc` that keeps its promise, the check of a well-formed string for room that is less than
-- 2 ^ 64 bytes either makes that room behind the text and keeps the text, or fails and changes nothing:
-- a size that overflows is found.
pub string_check-Checked :
    (realloc : ℕ → ℕ → Option Bytes) (s : DynString) (need : ℕ)
    → IsRealloc realloc
    → IsString s
    → need < 2 ^ 64
    → Checked s need (string_check realloc s need)
unfolding string_check
string_check-Checked realloc s need c h small =
    elim (Bool-cases (not (need == 0) && ltb (s.current_size - s.end) need)) [
      | inr fits ↦
          let inside = h.inside in
          let room : s.end + need ≤ s.current_size = ground arith in
          rw fits (inl (refl, h, room, refl, refl))
      | inl short ↦ elim (Bool-cases (ltb (new_size s need) need)) [
        | inl over ↦ rw (short, over) (inr refl)
        | inr fine ↦ elim (Option-cases (realloc s.current_size (new_size s need))) [
          | inl n ↦ rw (short, fine, n) (inr refl)
          | inr (more, e) ↦
              let lacks : s.current_size - s.end < need = ground arith in
              let (room, wide) = new_size-enough s need h small lacks fine in
              rw (short, fine, e)
                (grown-Checked s need more h room
                  (c.exact s.current_size (new_size s need) more wide e)
                  (c.bounded s.current_size (new_size s need) more e))
        ]
      ]
    ]
