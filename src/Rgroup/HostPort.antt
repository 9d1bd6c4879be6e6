-- ===== src/Rgroup/HostPort.antt =====
-- The text of a peer, HOST:PORT, taken apart by strtok_r and atoi.
use arcus_c_client.Prelude.{
  ℕ, ◌%◌, ◌^◌, ◌<◌, ◌==◌, ◌≡◌, ◌≢◌, refl, sym, ap, ◌∙◌, true, false, All, Option, some, [], ◌∷◌,
  ◌++◌, append-nil, leb, length, length-append, arith,
}
use arcus_c_client.Text.{Bytes, digits_onto, print_unsigned}
use arcus_c_client.Response.{starts_digit}
use arcus_c_client.Value.{digits_value}
use arcus_c_client.Value.Numbers.{
  starts_digit-some, print_unsigned-append, digit_first, digits_value-digits_onto, digits_value-end,
  All-print_unsigned,
}
use arcus_c_client.Rgroup.{Address}
use arcus_c_client.Rgroup.Switchover.{
  until_colon, skip_colons, strtok, port_of, port_token, host_token, peer_address,
}

abbrev pub NoColon : Bytes → Type 0
NoColon text = All (λ b. b ≢ b':') text

until_colon-token :
    (token rest : Bytes) → NoColon token → until_colon (token ++ b':' ∷ rest) ≡ (token, rest)
unfolding until_colon
until_colon-token [] rest h = refl
until_colon-token (b ∷ token) rest h =
    let other : (b == b':') ≡ false = ground (arith, h.0) in
    rw (other, until_colon-token token rest h.1) refl

until_colon-last : (token : Bytes) → NoColon token → until_colon token ≡ (token, [])
unfolding until_colon
until_colon-last [] h = refl
until_colon-last (b ∷ token) h =
    let other : (b == b':') ≡ false = ground (arith, h.0) in
    rw (other, until_colon-last token h.1) refl

skip_colons-token :
    (token rest : Bytes)
    → 0 < length token
    → NoColon token
    → skip_colons (token ++ rest) ≡ token ++ rest
unfolding skip_colons
skip_colons-token [] rest p h = absurd (omega arith)
skip_colons-token (b ∷ token) rest p h =
    let other : (b == b':') ≡ false = ground (arith, h.0) in rw other refl

nil_end : (l : Bytes) → l ++ [] ≡ l
nil_end l = rw append-nil refl

strtok-token :
    (token rest : Bytes)
    → 0 < length token
    → NoColon token
    → strtok (token ++ b':' ∷ rest) ≡ (some token, rest)
unfolding strtok
strtok-token token rest p h =
    let whole : (length (token ++ b':' ∷ rest) == 0) ≡ false =
      ground (arith, length-append token (b':' ∷ rest)) in
    rw (skip_colons-token token (b':' ∷ rest) p h, until_colon-token token rest h, whole) refl

strtok-last : (token : Bytes) → 0 < length token → NoColon token → strtok token ≡ (some token, [])
unfolding strtok
strtok-last token p h =
    let start : skip_colons token ≡ token =
      ap skip_colons (sym (nil_end token)) ∙ skip_colons-token token [] p h ∙ nil_end token in
    let whole : (length token == 0) ≡ false = ground arith in
    rw (start, until_colon-last token h, whole) refl

port_of-print_unsigned : (port : ℕ) → port < 2 ^ 16 → port_of (print_unsigned port) ≡ port
unfolding port_of
port_of-print_unsigned port h =
    let printed = digits_onto 20 port [] in
    let same : print_unsigned port ≡ printed =
      sym (nil_end (print_unsigned port)) ∙ print_unsigned-append port [] in
    let digit : starts_digit printed ≡ true = starts_digit-some 19 port [] in
    let (space, sign, positive) = digit_first printed digit in
    let read : digits_value 0 printed ≡ (port, []) =
      digits_value-digits_onto 20 port [] (omega arith)
      ∙ digits_value-end port [] (unfold starts_digit in refl) in
    let small : leb (2 ^ 63) port ≡ false = ground arith in
    let word : port % 2 ^ 16 ≡ port = omega arith in
    rw (same, space, sign, digit, read, positive, small, word) refl

length-print_unsigned_pos : (n : ℕ) → 0 < length (print_unsigned n)
length-print_unsigned_pos n = some_digit (print_unsigned n) (
    ap starts_digit (sym (nil_end (print_unsigned n)) ∙ print_unsigned-append n [])
    ∙ starts_digit-some 19 n [])
  where
    some_digit : (text : Bytes) → starts_digit text ≡ true → 0 < length text
    some_digit [] h = unfold starts_digit in cc h
    some_digit (b ∷ text) h = omega arith

-- HOST:PORT
abbrev pub peer_text : Address → Bytes
peer_text a = a.hostname ++ b':' ∷ print_unsigned a.port

pub peer_address-peer_text :
    (a : Address)
    → 0 < length a.hostname
    → NoColon a.hostname
    → a.port < 2 ^ 16
    → peer_address (peer_text a) ≡ some a
unfolding peer_address host_token port_token
peer_address-peer_text a h k p =
    ap host_token (strtok-token a.hostname (print_unsigned a.port) h k)
    ∙ ap (λ t. host_port a.hostname (port_token t.0))
        (strtok-last (print_unsigned a.port) (length-print_unsigned_pos a.port)
          (All-print_unsigned (λ b. b ≢ b':') a.port (λ d l. omega arith)))
    ∙ ap (host_port a.hostname) (port_of-print_unsigned a.port p)
  where
    host_port : Bytes → ℕ → Option Address
    host_port hostname port = some (record { hostname = hostname; port = port })
