-- ===== src/AgentPairing/Orderly.antt =====
-- Sequences of calls keep the requests well-formed.
use watchpost.Base.{
  ℕ, String, ap, Bool, List, ◌==◌, All, All-update_hit, Distinct, Distinct-update_where,
}
use watchpost.Store.Agents.{PairingRequest}
use watchpost.Store.Tables.{Db}
use watchpost.AgentPairing.{is_request}
use watchpost.AgentPairing.Lifecycle.{Steps, done, then, IsOrderly, Change, added, updated}
use watchpost.AgentPairing.Changed.{step-Change}

abbrev pub same_request : PairingRequest → PairingRequest → Bool
same_request r s = is_request r.id s

-- well-formed requests under different ids
pub record IsRegular (rows : List PairingRequest) : Type 0 where
  pub orderly : All IsOrderly rows
  pub distinct : Distinct same_request rows

change-IsRegular :
    (rows rows' : List PairingRequest) → Change rows rows' → IsRegular rows → IsRegular rows'
unfolding is_request
change-IsRegular rows rows' (added r same orderly fresh) k =
    rw same (record { orderly = (orderly, k.orderly); distinct = (fresh, k.distinct) })
change-IsRegular rows rows' (updated hit f same kept ids) k = rw same (record {
  orderly = All-update_hit IsOrderly hit f kept rows k.orderly;
  distinct =
      Distinct-update_where same_request hit f (λ x y. ap (λ i. i == x.id) (ids y))
        (λ x y. ap (λ i. y.id == i) (ids x)) rows k.distinct;
})

-- Calls in any number, each at a time not before the last, keep the requests of agents well-formed:
-- a request has exactly the columns of its state, whether it is pending, approved, rejected or
-- consumed, it lasts ten minutes, and no two have one id. This is so afterwards if it was so before.
pub steps-IsRegular :
    (sha256 : String → String) (start : ℕ) (db : Db) (now : ℕ) (db' : Db)
    → Steps sha256 start db now db'
    → IsRegular db.local.agent_pairing_requests
    → IsRegular db'.local.agent_pairing_requests
steps-IsRegular sha256 start db _ _ done k = k
steps-IsRegular sha256 start db _ db' (then {mid = mid} {at = at} now steps after step) k =
    change-IsRegular mid.local.agent_pairing_requests db'.local.agent_pairing_requests
      (step-Change sha256 now mid db' step) (steps-IsRegular sha256 start db at mid steps k)
