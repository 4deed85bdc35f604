-- ===== src/Tests/Recovery.antt =====
-- The theorem on the recovery screen at a concrete run.
use avok_js.Base.{some, List, [], ◌∷◌, fulfilled}
use avok_js.Recovery.Guardians.{GuardianState}
use avok_js.Recovery.{
  Event, call_enter_wallet, call_begin_approval, call_connected_guardian, settled, wallet_entered,
  state_read, minted, connected, signed, run, start,
}
use avok_js.Recovery.Safety.{recovery_grounded}
use avok_js.Recovery.Founded.{EachGrounded, IsBacked}

abbrev guarded : GuardianState
guarded = record {
  config = record {
    guardians = "0xGuardian" ∷ [];
    threshold = 1;
    recovery_delay_seconds = 86400;
    guardian_op_delay_seconds = 86400;
  };
  pending =
      some (record { promote_key = "0xOther"; nonce = 3; approvals = 1; ready_at = 1900000000 });
}

abbrev recovery : List (Event 8453)
recovery =
    call_enter_wallet
    ∷ settled 0 (wallet_entered (fulfilled "0xWallet"))
    ∷ settled 0 (state_read (fulfilled guarded))
    ∷ call_begin_approval
    ∷ settled 0 (minted (fulfilled "0xFresh"))
    ∷ call_connected_guardian
    ∷ settled 0 (connected (fulfilled "0xguardian"))
    ∷ settled 0 (signed (fulfilled "0xsig"))
    ∷ []

recovery_grounded_example :
    EachGrounded 8453 (run 8453 start recovery).trace
    × IsBacked 8453 (run 8453 start recovery).state (run 8453 start recovery).trace
recovery_grounded_example = recovery_grounded 8453 recovery
