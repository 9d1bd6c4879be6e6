-- ===== src/Value/Fields.antt =====
-- The fields of a VALUE line, printed and read.
use arcus_c_client.Prelude.{drop-append_all}
use arcus_c_client.Prelude.{
  ℕ, ◌^◌, ◌%◌, ◌<◌, ◌≡◌, refl, ap, ◌∙◌, true, false, ◌||◌, All, Option, none, some, [], ◌∷◌, ◌++◌,
  append_assoc, length, arith,
}
use arcus_c_client.Text.{Bytes, codes, print_unsigned}
use arcus_c_client.Response.{is_space, is_digit, starts_digit}
use arcus_c_client.Value.{
  max_key, key_loop, is_control, stored_key, next_field, cas_field, strtoull, value_header,
}
use arcus_c_client.Value.Numbers.{strtoull-print_unsigned, starts_digit-some, print_unsigned-append}

-- What a server sends after the length, without and with the number for `cas`.
unfoldable pub line_end : Option ℕ → Bytes
line_end none = codes "\r\n"
line_end (some cas) = b' ' ∷ (print_unsigned cas ++ codes "\r\n")

abbrev pub sent_cas : Option ℕ → ℕ
sent_cas none = 0
sent_cas (some cas) = cas

-- VALUE <namespace><key> <flags> <length>[ <cas>]\r\n
unfoldable pub value_line : Bytes → Bytes → ℕ → ℕ → Option ℕ → Bytes → Bytes
unfolding line_end
value_line namespace key flags value_length cas stale =
    codes "VALUE "
    ++ (namespace
        ++ (key
            ++ (b' '
                ∷ (print_unsigned flags
                    ++ (b' ' ∷ (print_unsigned value_length ++ (line_end cas ++ stale)))))))

-- Neither a control character nor white space.
abbrev pub InKey : ℕ → Type 0
InKey b = (is_control b || is_space b) ≡ false

key_loop-key :
    (key rest : Bytes) → All InKey key → key_loop (key ++ b' ' ∷ rest) ≡ (key, b' ' ∷ rest)
unfolding key_loop
key_loop-key [] rest h = unfold is_control is_space in refl
key_loop-key (b ∷ key) rest h = rw (h.0, key_loop-key key rest h.1) refl

next_field-some :
    (b : ℕ) (text : Bytes) → starts_digit text ≡ true → next_field (b ∷ text) ≡ some text
unfolding next_field starts_digit
next_field-some b [] h = cc h
next_field-some b (c ∷ text) h = refl

-- A number stands behind the byte that is skipped.
next_field-number :
    (b n : ℕ) (rest : Bytes)
    → next_field (b ∷ (print_unsigned n ++ rest)) ≡ some (print_unsigned n ++ rest)
next_field-number b n rest =
    next_field-some b (print_unsigned n ++ rest)
      (rw (print_unsigned-append n rest) (starts_digit-some 19 n rest))

cas_field-number :
    (text : Bytes) → starts_digit text ≡ true → cas_field (b' ' ∷ text) ≡ some (strtoull text).0
unfolding cas_field starts_digit
cas_field-number [] h = cc
cas_field-number (c ∷ text) h = refl

cas_field-line_end :
    (cas : Option ℕ) (stale : Bytes)
    → sent_cas cas < 2 ^ 64
    → cas_field (line_end cas ++ stale) ≡ some (sent_cas cas)
unfolding line_end
cas_field-line_end none stale h = unfold cas_field in refl
cas_field-line_end (some cas) stale h =
    let rest : Bytes = codes "\r\n" ++ stale in
    let joined : (print_unsigned cas ++ codes "\r\n") ++ stale ≡ print_unsigned cas ++ rest =
      append_assoc (print_unsigned cas) (codes "\r\n") stale in
    rw joined (
      cas_field-number (print_unsigned cas ++ rest)
        (rw (print_unsigned-append cas rest) (starts_digit-some 19 cas rest))
      ∙ ap (λ r. some r.0)
          (strtoull-print_unsigned cas rest h (unfold starts_digit is_digit in refl)))

-- The end of the line is no digit.
line_end-starts_digit :
    (cas : Option ℕ) (stale : Bytes) → starts_digit (line_end cas ++ stale) ≡ false
unfolding line_end starts_digit is_digit
line_end-starts_digit none stale = refl
line_end-starts_digit (some cas) stale = refl

-- The fields of a line are read as they were sent, whatever stands behind the line, for a key that
-- fits and numbers that do.
pub value_header-value_line :
    (namespace key stale : Bytes) (flags value_length : ℕ) (cas : Option ℕ)
    → All InKey key
    → length key < max_key
    → flags < 2 ^ 32
    → value_length < 2 ^ 64
    → sent_cas cas < 2 ^ 64
    → value_header (length namespace) (value_line namespace key flags value_length cas stale)
      ≡ some (record {
        item_key = key;
        item_flags = flags;
        value_length = value_length;
        item_cas = sent_cas cas;
      })
unfolding value_header value_line
value_header-value_line namespace key stale flags value_length cas k short f l c =
    let end = line_end cas ++ stale in
    let lengths = print_unsigned value_length ++ end in
    let numbers = print_unsigned flags ++ (b' ' ∷ lengths) in
    let fits : stored_key key ≡ key = unfold stored_key in ground arith in
    let word : flags % 2 ^ 32 ≡ flags = omega arith in
    rw
      (
        drop-append_all namespace (key ++ (b' ' ∷ numbers)),
        key_loop-key key numbers k,
        next_field-number b' ' flags (b' ' ∷ lengths),
        strtoull-print_unsigned flags (b' ' ∷ lengths) (omega arith)
            (unfold starts_digit is_digit in refl),
        next_field-number b' ' value_length end,
        strtoull-print_unsigned value_length end l (line_end-starts_digit cas stale),
        cas_field-line_end cas stale c,
        fits,
        word,
      )
      refl
