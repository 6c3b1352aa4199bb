-- ===== src/Provider/Tests.antt =====
-- A replay of four blocks in pages of two, with a reorganisation.
mod Confirmations
use quai_rust_sdk.Prelude.{
  ℕ, suc, ◌-◌, ◌≡◌, refl, arith, List, [], ◌∷◌, ◌++◌, replicate, map, true, false, Option, none,
  some, ok, err, ◌==◌, Result, leb, if◌then◌else◌,
}
use quai_rust_sdk.Primitives.Hash.{Hash}
use quai_rust_sdk.Primitives.Shard.{cyprus1, byte}
use quai_rust_sdk.Provider.Types.{
  ProviderError, observation_changed, BlockTag, latest, pending, number, BlockReference, ZoneHeader,
  Node,
}
use quai_rust_sdk.Provider.HeadTracker.{HeadTracker, HeadUpdate, new, poll, read_tip, reference}
use quai_rust_sdk.Provider.HeadTracker.Answers.{IsFirst}
use quai_rust_sdk.Provider.HeadTracker.Poll.{IsTracker, IsUpdate}
use quai_rust_sdk.Provider.HeadTracker.Reach.{
  Reached, started, polled, Reached-IsTracker, poll-IsUpdate,
}
use quai_rust_sdk.Provider.HeadTracker.State.{export_state, from_state}
use quai_rust_sdk.Provider.HeadTracker.State.RoundTrip.{IsSized, from_state-export_state}

-- The hash of a block: its height, on a branch.
abbrev hash_of : ℕ → ℕ → Hash
hash_of branch n = branch ∷ replicate 30 0 ++ (suc n ∷ [])

-- Block `n` of the chain whose blocks from height two on are on the given branch.
abbrev block_hash : ℕ → ℕ → Hash
block_hash branch n = hash_of (if leb 2 n then branch else 1) n

abbrev block : ℕ → ℕ → ZoneHeader
block branch n = record {
  hash = block_hash branch n;
  parent_hash = block_hash branch (n - 1);
  number = n;
  zone = cyprus1;
}

abbrev answer : ℕ → BlockTag → Result ProviderError (Option ZoneHeader)
answer branch latest = ok (some (block branch 3))
answer branch pending = ok none
answer branch (number n) = ok (if leb n 3 then some (block branch n) else none)

abbrev hash_or_fail : Option ZoneHeader → Result ProviderError Hash
hash_or_fail none = ok []
hash_or_fail (some header) = ok header.hash

-- A node on a branch of four blocks.
abbrev node : ℕ → Node (Option ZoneHeader)
node branch = record {
  header_values = λ batch. map (answer branch);
  read = λ n. answer branch (number n);
  decode = ok;
  genesis_hash = hash_or_fail;
}

abbrev at_block : ℕ → ℕ → BlockReference
at_block branch n = reference (block branch n)

abbrev tracker : BlockReference → List BlockReference → HeadTracker
tracker newest older = record {
  zone = cyprus1;
  genesis = block_hash 1 0;
  newest = newest;
  older = older;
  retain = 3;
  page_size = 2;
}

abbrev at_genesis : HeadTracker
at_genesis = tracker (at_block 1 0) []

abbrev at_two : HeadTracker
at_two = tracker (at_block 1 2) (at_block 1 1 ∷ at_block 1 0 ∷ [])

abbrev first_page : HeadUpdate
first_page = record {
  removed = [];
  added = block 1 1 ∷ block 1 2 ∷ [];
  checkpoint = at_block 1 2;
  caught_up = false;
}

starts : new cyprus1 (block_hash 1 0) (at_block 1 0) 3 2 ≡ ok at_genesis
unfolding new
starts = refl

first_poll : poll (node 1) at_genesis ≡ ok (at_two, first_page)
unfolding poll byte
first_poll = refl

-- The node moves to another branch from height two on.
abbrev reorganised : HeadTracker
reorganised = tracker (at_block 2 3) (at_block 2 2 ∷ at_block 1 1 ∷ [])

abbrev second_page : HeadUpdate
second_page = record {
  removed = at_block 1 2 ∷ [];
  added = block 2 2 ∷ block 2 3 ∷ [];
  checkpoint = at_block 2 3;
  caught_up = true;
}

second_poll : poll (node 2) at_two ≡ ok (reorganised, second_page)
unfolding poll byte
second_poll = refl

-- The node moves to the other branch before the ends of the page are read again.
abbrev moving_node : Node (Option ZoneHeader)
moving_node = record (node 1) {
  header_values = λ batch. map (answer (if batch == 2 then 2 else 1));
}

sees_move : poll moving_node at_genesis ≡ err observation_changed
unfolding poll byte
sees_move = refl

two-Reached : Reached at_two
two-Reached =
    polled (node 1) {t = at_genesis} {t' = at_two} {u = first_page}
      (started cyprus1 (block_hash 1 0) (at_block 1 0) 3 2 {t = at_genesis} starts) first_poll

Reached-IsTracker_example : IsTracker reorganised
Reached-IsTracker_example =
    Reached-IsTracker {t = reorganised}
      (polled (node 2) {t = at_two} {t' = reorganised} {u = second_page} two-Reached second_poll)

poll-IsUpdate_example :
    (tip : ZoneHeader) × (newest : Option ZoneHeader) × (read_tip (node 2) at_two
      ≡ ok (tip, newest))
    × IsFirst (node 2) at_two tip newest
    × IsUpdate (node 2) newest at_two reorganised second_page tip.number
poll-IsUpdate_example =
    poll-IsUpdate (node 2) {t = at_two} {t' = reorganised} {u = second_page} two-Reached second_poll

two-IsSized : IsSized at_two
two-IsSized = record { genesis = refl; anchors = omega arith }

from_state-export_state_example :
    from_state (export_state at_two) cyprus1 (block_hash 1 0) ≡ ok at_two
from_state-export_state_example =
    from_state-export_state at_two (Reached-IsTracker {t = at_two} two-Reached) two-IsSized
