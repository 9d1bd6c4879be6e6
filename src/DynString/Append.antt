-- ===== src/DynString/Append.antt =====
-- Appending to a string.
use arcus_c_client.Prelude.{take-append_exact}
use arcus_c_client.Prelude.{
  ℕ, ◌+◌, ◌^◌, ◌≤◌, ◌<◌, ◌≡◌, ◌⊎◌, refl, sym, ap, ◌∙◌, inl, inr, true, Option, some, ◌++◌, arith,
  length, length-append, length-take, length-drop, take, drop, leb, append_assoc,
}
use arcus_c_client.ReturnCode.{ReturnCode, success, memory_allocation_failure}
use arcus_c_client.Outcome.{memcached_failed}
use arcus_c_client.Text.{Bytes}
use arcus_c_client.DynString.{
  DynString, string_check, memcpy, append_checked, string_append, contents,
}
use arcus_c_client.DynString.Growth.{IsString, IsRealloc, string_check-Checked}

memcpy-length :
    (memory : Bytes) (i : ℕ) (value : Bytes)
    → i + length value ≤ length memory
    → (m : Bytes) × (memcpy memory i value ≡ some m)
      × (length m ≡ length memory)
      × (take (i + length value) m ≡ take i memory ++ value)
unfolding memcpy
memcpy-length memory i value h =
    let inside : leb (i + length value) (length memory) ≡ true = ground arith in
    let m = take i memory ++ (value ++ drop (i + length value) memory) in
    let size : length m ≡ length memory =
      length-append (take i memory) (value ++ drop (i + length value) memory)
      ∙ omega (
        arith,
        length-append value (drop (i + length value) memory),
        length-take i memory,
        length-drop (i + length value) memory,
      ) in
    let shape : (take i memory ++ value) ++ drop (i + length value) memory ≡ m =
      append_assoc (take i memory) value (drop (i + length value) memory) in
    let n : length (take i memory ++ value) ≡ i + length value =
      length-append (take i memory) value ∙ omega (arith, length-take i memory) in
    (
      m,
      rw inside refl,
      size,
      ap (take (i + length value)) (sym shape)
          ∙ take-append_exact (take i memory ++ value) (drop (i + length value) memory)
              (i + length value) n,
    )

-- A string that has taken a value behind its text, or one as it was.
abbrev pub Appended : DynString → Bytes → ReturnCode × DynString → Type 0
Appended s value r =
    ((r.0 ≡ success) × IsString r.1 × (contents r.1 ≡ contents s ++ value))
    ⊎ (r ≡ (memory_allocation_failure, s))

append_checked-Appended :
    (s : DynString) (value : Bytes) (rc : ReturnCode) (t : DynString)
    → rc ≡ success
    → IsString t
    → s.end + length value ≤ t.current_size
    → t.end ≡ s.end
    → contents t ≡ contents s
    → (r : ReturnCode × DynString) × (append_checked (rc, t) value ≡ some r) × Appended s value r
unfolding append_checked memcached_failed
append_checked-Appended s value rc t e h room here same =
    let (m, run, size, text) = memcpy-length t.string t.end value (omega (arith, h.sized)) in
    let r : ReturnCode × DynString =
      (success, record t { string = m; end = t.end + length value }) in
    (
      r,
      rw (e, run) refl,
      inl (
        refl,
        record { sized = size ∙ h.sized; inside = omega arith; small = h.small },
        text ∙ ap (λ x. x ++ value) same,
      ),
    )

-- With a `realloc` that keeps its promise, a well-formed string takes any value that fits the address
-- space behind its text, without a write outside of its memory, and stays well formed; or the call
-- reports the failed allocation and changes nothing.
pub string_append-Appended :
    (realloc : ℕ → ℕ → Option Bytes) (s : DynString) (value : Bytes)
    → IsRealloc realloc
    → IsString s
    → length value < 2 ^ 64
    → (r : ReturnCode × DynString) × (string_append realloc s value ≡ some r) × Appended s value r
unfolding string_append append_checked memcached_failed
string_append-Appended realloc s value c h small =
    elim (string_check-Checked realloc s (length value) c h small) [
      | inl (e, ok, room, here, same) ↦
          let r = string_check realloc s (length value) in
          append_checked-Appended s value r.0 r.1 e ok room here same
      | inr fails ↦ ((memory_allocation_failure, s), rw (string_append, fails) refl, inr refl)
    ]
