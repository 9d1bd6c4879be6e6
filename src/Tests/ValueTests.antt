-- ===== src/Tests/ValueTests.antt =====
-- VALUE lines and values.
use arcus_c_client.Prelude.{
  ◌-◌, ◌^◌, ◌≡◌, refl, false, none, some, List, [], ◌∷◌, ◌++◌, length, arith,
}
use arcus_c_client.Text.{Bytes, codes}
use arcus_c_client.DynString.{DynString}
use arcus_c_client.Response.{is_space}
use arcus_c_client.Io.{Recv}
use arcus_c_client.Io.Stream.{arrivals, pending, IsReady}
use arcus_c_client.Tests.StringTests.{realloc, realloc-IsRealloc, small, small-IsString}
use arcus_c_client.Tests.IoTests.{connected, length-blank}
use arcus_c_client.Value.{is_control, strtoull, value_header, value_fetch}
use arcus_c_client.Value.Fields.{value_line}
use arcus_c_client.Value.Fetch.{Fetched, value_fetch-value_line}

program : Unit {0}
unfolding value_header strtoull
program = tt

header_line :
    value_header 2 (codes "VALUE p:key 7 5 12\r\nold")
    ≡ some (record { item_key = codes "key"; item_flags = 7; value_length = 5; item_cas = 12 })
unfolding program
header_line = refl

-- The line ends before the length.
header_short : value_header 0 (codes "VALUE key 7") ≡ none
unfolding program
header_short = refl

-- White space and a sign before a number, and a number that is too large
numbers :
    (strtoull (codes " -1x") ≡ (2 ^ 64 - 1, codes "x"))
    × (strtoull (codes "99999999999999999999") ≡ (2 ^ 64 - 1, []))
    × (strtoull (codes " x") ≡ (0, codes " x"))
unfolding program
numbers = (refl, refl, refl)

abbrev answer : List Recv
answer = Recv.received (codes "he") ∷ Recv.received (codes "llo\r\nEND\r\n") ∷ []

answer-IsReady : IsReady (connected answer)
answer-IsReady = record {
  opened = refl;
  waits = omega arith;
  room = length-blank;
  window = omega arith;
  delivery = (omega arith, (omega arith, tt));
}

answer-pending : pending (connected answer) ≡ codes "hello" ++ (codes "\r\n" ++ codes "END\r\n")
unfolding arrivals
answer-pending = refl

value_fetch-value_line_example :
    Fetched (codes "key") 7 12 (codes "hello") (codes "END\r\n") (connected answer) (
      value_fetch realloc false
        (length (codes "p:"))
        (value_line (codes "p:") (codes "key") 7 (length (codes "hello")) (some 12) (codes "old"))
        small
        (connected answer))
unfolding is_control is_space
value_fetch-value_line_example =
    value_fetch-value_line realloc small (codes "p:") (codes "key") (codes "old") (codes "hello")
      (codes "END\r\n") 7 (some 12) (connected answer) realloc-IsRealloc small-IsString
      (refl, (refl, (refl, tt))) (omega arith) (omega arith) (omega arith) (omega arith)
      answer-IsReady answer-pending

abbrev boundless : Bytes
boundless = value_line (codes "p:") (codes "key") 7 (2 ^ 64 - 1) none (codes "old")
