-- ===== src/Tests/ResponseTests.antt =====
-- Lines of responses.
use arcus_c_client.Prelude.{
  ◌<◌, ◌≡◌, refl, false, none, some, ◌∷◌, ◌++◌, ltb, length, take, if◌then◌else◌, arith,
}
use arcus_c_client.ReturnCode.{ReturnCode}
use arcus_c_client.Text.{codes}
use arcus_c_client.Tests.Samples.{blank as no_server}
use arcus_c_client.Response.{
  Action, undefined, starts, scans_unsigned, error_message, textual_line, after_space, mechanisms,
  peer_check, peer_size,
}
use arcus_c_client.Response.Lines.{blank, textual_line-blank}
use arcus_c_client.Response.Peer.{switchover-peer_check}

program : Unit {0}
unfolding textual_line starts error_message scans_unsigned after_space mechanisms
program = tt

stored_line : textual_line false 8 (codes "STORED\r\nold") ≡ Action.code ReturnCode.stored
unfolding program
stored_line = refl

error_line :
    textual_line false 18 (codes "CLIENT_ERROR bad\r\n")
    ≡ Action.message ReturnCode.client_error (codes "bad")
unfolding program
error_line = refl

number_line : textual_line false 4 (codes "42\r\n") ≡ Action.code ReturnCode.success
unfolding program
number_line = refl

-- The version is looked for behind the end of the line.
version_line :
    textual_line false 8 (codes "VERSION\nold 7\n") ≡ Action.version_fetch (some (codes "7\n"))
unfolding program
version_line = refl

mechanisms_line :
    textual_line false 17 (codes "SASL_MECH PLAIN\r\n")
    ≡ Action.sasl_mech (some (codes "PLAIN" ++ 0 ∷ codes "\nCH PLAIN\r\n"))
unfolding program
mechanisms_line = refl

textual_line-blank_example :
    textual_line false 2 (codes "\r" ++ b'\n' ∷ codes "7 old")
    ≡ (if scans_unsigned (codes "7 old") then Action.code ReturnCode.success else undefined)
textual_line-blank_example =
    textual_line-blank false (codes "\r") (codes "7 old") (unfold blank in refl)

switchover-peer_check_example :
    let after = peer_check (some (codes "cache2:11211")) no_server in
    (textual_line false 25 (codes "SWITCHOVER " ++ codes "cache2:11211" ++ b'\r' ∷ codes "\n")
      ≡ Action.peer ReturnCode.switchover (some (codes "cache2:11211")))
    × (textual_line false 25 (codes "REPL_SLAVE " ++ codes "cache2:11211" ++ b'\r' ∷ codes "\n")
        ≡ Action.peer ReturnCode.repl_slave (some (codes "cache2:11211")))
    × (after.switchover_peer ≡ take 127 (codes "cache2:11211"))
    × (length after.switchover_peer < peer_size)
    × (after.switchover_sidx
        ≡ (if ltb (length (codes "cache2:11211")) peer_size then none else some 1))
switchover-peer_check_example =
    switchover-peer_check false 25 (codes "cache2:11211") (codes "\n") no_server (omega arith)
