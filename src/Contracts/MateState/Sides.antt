-- ===== src/Contracts/MateState/Sides.antt =====
-- Which side mcp_server/contracts/mate_state.py says mates.
use chessy_mcp.Prelude.{
  ℤ, pos, negsuc, negate, sub_ℕ, ltbℤ, ◌≡◌, Bool, true, false, Option, none, some, arith,
  if◌then◌else◌,
}
use chessy_mcp.Contracts.MateState.{
  UciInfo, Snapshot, no_mate, white_mates, black_mates, info_to_eval, semantic_mate_state,
}

-- the evaluation made of an engine's reply, on a position that is not over
abbrev pub snapshot_of : Bool → UciInfo → Snapshot
snapshot_of turn info = record {
  status = "active";
  winner = none;
  cp = (info_to_eval turn info).0;
  mate = (info_to_eval turn info).1;
}

-- The evaluation holds the mate for white, and the label turns it round again for black. So where
-- the engine mates for the side to move the label is that white mates, and where the side to move
-- is mated that black mates, whoever's turn it is.
pub semantic_mate_state-snapshot_of :
    (turn : Bool) (cp : Option ℤ) (m : ℤ)
    → semantic_mate_state turn (snapshot_of turn (record { cp = cp; mate = some m })) none
      ≡ (if ltbℤ (pos 0) m then white_mates else if ltbℤ m (pos 0) then black_mates else no_mate)
unfolding semantic_mate_state info_to_eval negate sub_ℕ
semantic_mate_state-snapshot_of true cp m = ground arith
semantic_mate_state-snapshot_of false cp (pos n) = ground arith
semantic_mate_state-snapshot_of false cp (negsuc n) = ground arith
