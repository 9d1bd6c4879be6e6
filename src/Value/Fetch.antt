-- ===== src/Value/Fetch.antt =====
-- A value from its line to the result.
use arcus_c_client.Prelude.{take-append_all, drop-append_all}
use arcus_c_client.Prelude.{
  ℕ, zero, suc, ◌+◌, ◌^◌, ◌≤◌, ◌<◌, ◌≡◌, ◌⊎◌, refl, sym, ap, ◌∙◌, subst, true, false, inl, inr, All,
  Option, none, some, [], ◌∷◌, ◌++◌, append_assoc, ltb, leb, length, length-append, set, take, drop,
  arith,
}
use arcus_c_client.ReturnCode.{ReturnCode, success, memory_allocation_failure}
use arcus_c_client.Outcome.{memcached_failed}
use arcus_c_client.Text.{Bytes, codes}
use arcus_c_client.DynString.{DynString, string_check, string_reset, memcpy, contents}
use arcus_c_client.DynString.Growth.{IsString, IsRealloc, string_check-Checked}
use arcus_c_client.Io.{Channel}
use arcus_c_client.Io.Stream.{pending, IsReady}
use arcus_c_client.Io.Reads.{io_read-Reads}
use arcus_c_client.Value.{Header, Item, max_key, end_value, to_read, read_value, value_fetch}
use arcus_c_client.Value.Fields.{value_line, sent_cas, InKey, value_header-value_line}

take-set : (n i : ℕ) (a : ℕ) (l : Bytes) → n ≤ i → take n (set l i a) ≡ take n l
take-set zero i a l h = refl
take-set (suc n) zero a l h = absurd (omega arith)
take-set (suc n) (suc i) a [] h = refl
take-set (suc n) (suc i) a (x ∷ l) h = rw (take-set n i a l (omega arith)) refl

-- The value with its end of line is put in memory that has room for it.
end_value-contents :
    (value end : Bytes) (s : DynString)
    → length end ≡ 2
    → length value + 2 ≤ length s.string
    → (memory : Bytes) × (s' : DynString) × (memcpy s.string 0 (value ++ end) ≡ some memory)
      × (end_value (length value) memory s ≡ some s')
      × (contents s' ≡ value)
unfolding memcpy end_value
end_value-contents value end s two room =
    let stored = value ++ end in
    let size : length stored ≡ length value + 2 = omega (arith, length-append value end) in
    let memory : Bytes = stored ++ drop (0 + length stored) s.string in
    let big : length value + 1 < length memory =
      omega (arith, size, length-append stored (drop (0 + length stored) s.string)) in
    let fits : leb (0 + length stored) (length s.string) ≡ true = ground arith in
    let whole : ltb (length value + 1) (length memory) ≡ true = ground arith in
    let kept : take (length value) (set (set memory (length value) 0) (length value + 1) 0)
        ≡ value =
      take-set (length value) (length value + 1) 0 (set memory (length value) 0) (omega arith)
      ∙ take-set (length value) (length value) 0 memory (omega arith)
      ∙ ap (take (length value)) (append_assoc value end (drop (0 + length stored) s.string))
      ∙ take-append_all value (end ++ drop (0 + length stored) s.string) in
    (
      memory,
      record s {
        string = set (set memory (length value) 0) (length value + 1) 0;
        end = length value;
      },
      rw fits refl,
      rw whole refl,
      kept,
    )

-- What a call comes to: no memory, and nothing read; or the item as it was sent.
abbrev pub Fetched :
    Bytes → ℕ → ℕ → Bytes → Bytes → Channel → Option (ReturnCode × Option Item × Channel) → Type 0
Fetched key flags cas value rest channel result =
    (result ≡ some (memory_allocation_failure, none, channel))
    ⊎ ((s : DynString) × (left : Channel) × (result
          ≡ some (
            success,
            some (record { item_key = key; item_flags = flags; item_cas = cas; value = s }),
            left,
          ))
        × (contents s ≡ value)
        × (pending left ≡ rest)
        × IsReady left)

module _ (key value rest : Bytes) (flags cas : ℕ) (channel : Channel) (v : IsReady channel)
    (sent : pending channel ≡ value ++ (codes "\r\n" ++ rest)) (small : length value < 2 ^ 63) where
  abbrev header : Header
  header = record {
    item_key = key;
    item_flags = flags;
    value_length = length value;
    item_cas = cas;
  }

  to_read_lem : to_read (length value) ≡ length value + 2
  unfolding to_read
  to_read_lem = omega arith

  stored_lem : take (length value + 2) (pending channel) ≡ value ++ codes "\r\n"
  stored_lem =
      ap (take (length value + 2)) (sent ∙ sym (append_assoc value (codes "\r\n") rest))
      ∙ ap (λ n. take n ((value ++ codes "\r\n") ++ rest))
          (sym (length-append value (codes "\r\n")))
      ∙ take-append_all (value ++ codes "\r\n") rest

  left_lem : drop (length value + 2) (pending channel) ≡ rest
  left_lem =
      ap (drop (length value + 2)) (sent ∙ sym (append_assoc value (codes "\r\n") rest))
      ∙ ap (λ n. drop n ((value ++ codes "\r\n") ++ rest))
          (sym (length-append value (codes "\r\n")))
      ∙ drop-append_all (value ++ codes "\r\n") rest

  read_value-Fetched :
      (s : DynString)
      → length value + 2 ≤ length s.string
      → Fetched key flags cas value rest channel (read_value header (success, s) channel)
  unfolding read_value memcached_failed
  read_value-Fetched s room =
      let got =
        io_read-Reads (length value + 2) channel v
          (omega (arith, ap length sent, length-append value (codes "\r\n" ++ rest))) in
      let (memory, s', copied, ended, held) = end_value-contents value (codes "\r\n") s refl room in
      inr (
        s',
        got.left,
        rw (to_read_lem, got.returns, stored_lem, copied, ended) refl,
        held,
        got.rest ∙ left_lem,
        got.ready,
      )

  read_value-none :
      (s : DynString)
      → Fetched key flags cas value rest channel
          (read_value header (memory_allocation_failure, s) channel)
  unfolding read_value memcached_failed
  read_value-none s = inl refl

pub string_reset-IsString : (d : DynString) → IsString d → IsString (string_reset d)
unfolding string_reset
string_reset-IsString d h = record { sized = h.sized; inside = omega arith; small = h.small }

-- On a connection that is ready, after a VALUE line of any namespace, key that fits, flags, length
-- and perhaps number for cas, whatever stands in the buffer behind it, and with the value, its
-- end of line and others to come, textual_value_fetch either finds no memory and reads nothing, or
-- succeeds with the key, flags, cas and value as they were sent, and leaves exactly what follows the
-- value to be read.
pub value_fetch-value_line :
    (realloc : ℕ → ℕ → Option Bytes) (d : DynString) (namespace key stale value rest : Bytes)
    (flags : ℕ) (cas : Option ℕ) (channel : Channel)
    → IsRealloc realloc
    → IsString d
    → All InKey key
    → length key < max_key
    → flags < 2 ^ 32
    → length value < 2 ^ 63
    → sent_cas cas < 2 ^ 64
    → IsReady channel
    → pending channel ≡ value ++ (codes "\r\n" ++ rest)
    → Fetched key flags (sent_cas cas) value rest channel (
        value_fetch realloc false
          (length namespace)
          (value_line namespace key flags (length value) cas stale)
          d
          channel)
unfolding value_fetch
value_fetch-value_line realloc d namespace key stale value rest flags cas channel c i k short f l n
      v sent =
    let s = string_reset d in
    let need = to_read (length value) in
    let room = to_read_lem key value rest flags (sent_cas cas) channel v sent l in
    let h : Header = header key value rest flags (sent_cas cas) channel v sent l in
    rw
      (value_header-value_line namespace key stale flags (length value) cas k short f (omega arith)
        n)
      (elim (string_check-Checked realloc s need c (string_reset-IsString d i)
        (omega (arith, room))) [
          | inl (found, w, fits, same, kept) ↦
              subst
                (λ rc.
                  Fetched key flags (sent_cas cas) value rest channel
                    (read_value h (rc, (string_check realloc s need).1) channel))
                (sym found)
                (read_value-Fetched key value rest flags (sent_cas cas) channel v sent l
                  (string_check realloc s need).1 (omega (arith, fits, room, w.sized)))
          | inr none_left ↦
              subst
                (λ r. Fetched key flags (sent_cas cas) value rest channel (read_value h r channel))
                (sym none_left)
                (read_value-none key value rest flags (sent_cas cas) channel v sent l s)
        ])
