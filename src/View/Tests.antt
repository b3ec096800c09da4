-- ===== src/View/Tests.antt =====
-- Proposals of crates/view/src/pending.rs at concrete data, and the theorems about them there.
use edet.Base.{
  ℕ, zero, suc, ◌-◌, ◌≡◌, refl, true, false, none, some, List, [], ◌∷◌, ◌++◌, arith, length,
  replicate, All,
}
use edet.Bytes.{Bytes, same_bytes}
use edet.Map.{Map, contains_key, IsSorted, get}
use edet.Map.Strings.{bytes_ordered}
use edet.View.Party.{Party, party_ordered}
use edet.View.Pending.{
  Tx, Scheme, Registry, PendingSignReq, PendingEntry, PendingPool, Completed, SignOutcome,
  Rejection, prune, empty_pool, request_digest, member_of_key, party_of_key,
}
use edet.View.Pending.Closed.{Closes, Closes-refused}
use edet.View.Pending.Inbox.{for_party}
use edet.View.Pending.Inbox.Awaiting.{sign-awaiting}
use edet.View.Pending.Invitation.{invite_message}
use edet.View.Pending.Reclaim.{hogs, no_later}
use edet.View.Pending.Reclaim.Room.{IsYoungest, hogs-IsYoungest}
use edet.View.Pending.Runs.{Call, run, run-IsSound}
use edet.View.Pending.Sign.{sign, decline, decline_domain}
use edet.View.Pending.Sign.Complete.{IsComplete, sign-IsComplete}
use edet.View.Pending.Sound.{IsSound, empty_pool-IsSound}

-- A digest of the two fields, and a signature that is the key before the message.
abbrev scheme : Scheme ℕ
scheme = record {
  digest = λ chain_id tx nonce epoch. some (epoch ∷ nonce);
  verify = λ k message signature. same_bytes signature (k ++ message);
}

abbrev hash : Bytes → Bytes
hash bytes = 9 ∷ bytes

-- Members 1 and 2, by the keys 11 and 12.
abbrev ledger_two : Registry
ledger_two = record { chain_id = 7 ∷ []; key_index = (11 ∷ [], 1) ∷ (12 ∷ [], 2) ∷ [] }

-- A sale of member 2 to member 1, signed by the key.
abbrev request : Bytes → PendingSignReq ℕ
request k = record {
  tx = Tx.sale (Party.member 2) (Party.member 1) 50;
  nonce = 3 ∷ [];
  not_after_epoch = 20;
  required = Party.member 1 ∷ Party.member 2 ∷ [];
  min_sigs = 2;
  signer = k;
  signature = k ++ 20 ∷ 3 ∷ [];
  invite = none;
}

abbrev opening_call : List (Call ℕ)
opening_call = Call.signs ledger_two (request (11 ∷ [])) 100 ∷ []

abbrev opened : PendingPool ℕ
opened = run scheme hash opening_call empty_pool

opened_once : length opened.entries ≡ 1
unfolding run member_of_key
opened_once = refl

abbrev done : Completed ℕ
done = record {
  tx = Tx.sale (Party.member 2) (Party.member 1) 50;
  nonce = 3 ∷ [];
  not_after_epoch = 20;
  signed = (11 ∷ [], 11 ∷ 20 ∷ 3 ∷ []) ∷ (12 ∷ [], 12 ∷ 20 ∷ 3 ∷ []) ∷ [];
}

abbrev finished : PendingPool ℕ
finished = record {
  entries = [];
  tombstones = (20 ∷ 3 ∷ [], tt) ∷ [];
  tombstone_order = (20 ∷ 3 ∷ []) ∷ [];
}

completes :
    sign scheme ledger_two (request (12 ∷ [])) 200 opened ≡ (SignOutcome.complete done, finished)
unfolding run sign member_of_key
completes = refl

-- The vector that the tests of the repository pin.
invite_vector :
    invite_message
      (101 ∷ 100 ∷ 101 ∷ 116 ∷ 45 ∷ 100 ∷ 101 ∷ 118 ∷ 45 ∷ 49 ∷ [])
      (replicate 32 1)
      1_700_000_000
      (replicate 16 10)
    ≡ 101 ∷ 100 ∷ 101 ∷ 116 ∷ 45 ∷ 105 ∷ 110 ∷ 118 ∷ 105 ∷ 116 ∷ 101 ∷ 45 ∷ 118 ∷ 49 ∷ 10 ∷ 101
      ∷ 100 ∷ 101 ∷ 116 ∷ 45 ∷ 100 ∷ 101 ∷ 118 ∷ 45 ∷ 49 ∷ 10 ∷ 48 ∷ 49 ∷ 48 ∷ 49 ∷ 48 ∷ 49 ∷ 48
      ∷ 49 ∷ 48 ∷ 49 ∷ 48 ∷ 49 ∷ 48 ∷ 49 ∷ 48 ∷ 49 ∷ 48 ∷ 49 ∷ 48 ∷ 49 ∷ 48 ∷ 49 ∷ 48 ∷ 49 ∷ 48 ∷ 49
      ∷ 48 ∷ 49 ∷ 48 ∷ 49 ∷ 48 ∷ 49 ∷ 48 ∷ 49 ∷ 48 ∷ 49 ∷ 48 ∷ 49 ∷ 48 ∷ 49 ∷ 48 ∷ 49 ∷ 48 ∷ 49 ∷ 48
      ∷ 49 ∷ 48 ∷ 49 ∷ 48 ∷ 49 ∷ 48 ∷ 49 ∷ 48 ∷ 49 ∷ 48 ∷ 49 ∷ 48 ∷ 49 ∷ 48 ∷ 49 ∷ 48 ∷ 49 ∷ 48 ∷ 49
      ∷ 10 ∷ 49 ∷ 55 ∷ 48 ∷ 48 ∷ 48 ∷ 48 ∷ 48 ∷ 48 ∷ 48 ∷ 48 ∷ 10 ∷ 48 ∷ 97 ∷ 48 ∷ 97 ∷ 48 ∷ 97 ∷ 48
      ∷ 97 ∷ 48 ∷ 97 ∷ 48 ∷ 97 ∷ 48 ∷ 97 ∷ 48 ∷ 97 ∷ 48 ∷ 97 ∷ 48 ∷ 97 ∷ 48 ∷ 97 ∷ 48 ∷ 97 ∷ 48 ∷ 97
      ∷ 48 ∷ 97 ∷ 48 ∷ 97 ∷ 48 ∷ 97 ∷ []
unfolding invite_message
invite_vector = refl

run-IsSound_example : IsSound scheme (7 ∷ []) opened
run-IsSound_example =
    run-IsSound scheme hash (7 ∷ []) opening_call empty_pool (refl, tt)
      (empty_pool-IsSound scheme (7 ∷ []))

sign-IsComplete_example :
    (d : Bytes) × IsComplete scheme ledger_two (prune 200 opened).entries (request (12 ∷ [])) d done
    × (contains_key d (prune 200 opened).tombstones ≡ false)
    × (finished.tombstone_order ≡ (prune 200 opened).tombstone_order ++ d ∷ [])
sign-IsComplete_example =
    sign-IsComplete scheme ledger_two (request (12 ∷ [])) 200 opened done finished
      run-IsSound_example completes

abbrev decline_signature : Bytes
decline_signature = 12 ∷ hash ((20 ∷ 3 ∷ []) ++ decline_domain)

declines :
    decline scheme hash ledger_two (20 ∷ 3 ∷ []) (12 ∷ []) decline_signature opened
    ≡ (true, finished)
unfolding run member_of_key decline
declines = refl

request_is : request_digest scheme ledger_two (request (12 ∷ [])) ≡ some (20 ∷ 3 ∷ [])
unfolding request_digest
request_is = refl

Closes-refused_example :
    sign scheme ledger_two (request (12 ∷ [])) 300 (run scheme hash opening_call finished)
    ≡ (SignOutcome.rejected Rejection.closed, prune 300 (run scheme hash opening_call finished))
Closes-refused_example =
    Closes-refused scheme hash ledger_two (20 ∷ 3 ∷ []) opened finished run-IsSound_example
      (Closes.declined (12 ∷ []) decline_signature declines) opening_call (refl, tt) (omega arith)
      ledger_two refl (request (12 ∷ [])) 300 request_is

records :
    sign scheme ledger_two (request (11 ∷ [])) 100 empty_pool ≡ (SignOutcome.recorded true, opened)
unfolding run sign member_of_key
records = refl

request_first : request_digest scheme ledger_two (request (11 ∷ [])) ≡ some (20 ∷ 3 ∷ [])
unfolding request_digest
request_first = refl

sign-awaiting_example :
    ((e : PendingEntry ℕ) × (get (20 ∷ 3 ∷ []) opened.entries ≡ some e)
      × (get (11 ∷ []) e.sigs ≡ some (11 ∷ 20 ∷ 3 ∷ [])))
    × (get (20 ∷ 3 ∷ []) (for_party ledger_two (party_of_key ledger_two (11 ∷ [])) opened).0 ≡ none)
sign-awaiting_example =
    sign-awaiting scheme ledger_two (request (11 ∷ [])) 100 empty_pool opened (20 ∷ 3 ∷ []) true
      (empty_pool-IsSound scheme (7 ∷ [])) request_first records

-- Seventeen proposals of member 1, each made a second after the one before.
abbrev crowd : ℕ → Map Bytes (PendingEntry ℕ)
crowd zero = []
crowd (suc n) =
    (
      (17 - suc n) ∷ [],
      record {
        tx = Tx.other 0;
        nonce = [];
        not_after_epoch = 20;
        required = Party.member 1 ∷ [];
        min_sigs = 1;
        initiator = 1;
        opener = Party.member 1;
        created_secs = 117 - suc n;
        sigs = [];
      },
    )
    ∷ crowd n

-- Of the seventeen, the last made is the one given up.
gives_up_youngest : hogs (crowd 17) ≡ (16 ∷ []) ∷ []
unfolding hogs no_later
gives_up_youngest = refl

hogs-IsYoungest_example : All (IsYoungest (crowd 17)) (hogs (crowd 17))
hogs-IsYoungest_example = hogs-IsYoungest (crowd 17) crowd_sorted
  where
    crowd_sorted : IsSorted (crowd 17)
    crowd_sorted = ground arith
