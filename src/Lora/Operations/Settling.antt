-- ===== src/Lora/Operations/Settling.antt =====
-- Which job settles an operation (src/lora_gateways/dx_smart_lr02_gw.cpp).
use aether_gateway.Prelude.{
  get_elem?, Increasing, ℕ, zero, suc, ◌+◌, ◌≡◌, ◌≤◌, ◌∙◌, refl, ap, Bool, List, [], ◌∷◌, Option,
  none, some, arith,
}
use aether_gateway.Aether.{UpdateStatus}
use aether_gateway.Lora.Types.{LoraGatewayInit}
use aether_gateway.Lora.Driver.{Driver, Job}
use aether_gateway.Lora.Initializing.{notifies}
use aether_gateway.Lora.Connections.{Reach}
use aether_gateway.Lora.Operations.{Settled, notified, failed, stopped, settle}
use aether_gateway.Lora.Operations.Order.{cons_some, operations, Reach-IsOrdered}

found : (x j : Job) → some x ≡ some j → notifies x ≡ notifies j
found x j e = ap operation_of e
  where
    operation_of : Option Job → Option ℕ
    operation_of none = none
    operation_of (some y) = notifies y

rest :
    (lo hi : ℕ) (o : Option ℕ) (hs : List ℕ)
    → Increasing lo (cons_some o hs) hi
    → (lo' : ℕ) × Increasing lo' hs hi
rest lo hi none hs inc = (lo, inc)
rest lo hi (some k) hs inc = (k + 1, inc.1)

-- An operation of a job is within the bounds of the list.
operation_bounds :
    (jobs : List Job) (lo hi n h : ℕ) (job : Job)
    → Increasing lo (operations jobs) hi
    → get_elem? jobs n ≡ some job
    → notifies job ≡ some h
    → lo ≤ h
operation_bounds [] lo hi n h job inc e q = cc
operation_bounds (j ∷ jobs) lo hi zero h job inc e q = (rw (found j job e ∙ q) at inc).0
operation_bounds (j ∷ jobs) lo hi (suc n) h job inc e q =
    branch (notifies j) inc (λ lo' inc'. operation_bounds jobs lo' hi n h job inc' e q)
  where
    branch :
        (o : Option ℕ)
        → Increasing lo (cons_some o (operations jobs)) hi
        → ((lo' : ℕ) → Increasing lo' (operations jobs) hi → lo' ≤ h)
        → lo ≤ h
    branch none inc ih = ih lo inc
    branch (some k) inc ih = omega (arith, ih (k + 1) inc.1, inc.0)

-- The operation of a first job is that of no other.
first_alone :
    (x : Job) (jobs : List Job) (lo hi n h : ℕ) (k : Job)
    → Increasing lo (operations (x ∷ jobs)) hi
    → notifies x ≡ some h
    → get_elem? jobs n ≡ some k
    → notifies k ≡ some h
    → ⊥
first_alone x jobs lo hi n h k inc p f q =
    let inc' : Increasing lo (h ∷ operations jobs) hi = rw p at inc in
    omega (arith, operation_bounds jobs (h + 1) hi n h k inc'.1 f q)

pub same_position :
    (jobs : List Job) (lo hi m n h : ℕ) (j k : Job)
    → Increasing lo (operations jobs) hi
    → get_elem? jobs m ≡ some j
    → get_elem? jobs n ≡ some k
    → notifies j ≡ some h
    → notifies k ≡ some h
    → m ≡ n
same_position [] lo hi m n h j k inc e f p q = cc
same_position (x ∷ jobs) lo hi zero zero h j k inc e f p q = refl
same_position (x ∷ jobs) lo hi zero (suc n) h j k inc e f p q =
    absurd (first_alone x jobs lo hi n h k inc (found x j e ∙ p) f q)
same_position (x ∷ jobs) lo hi (suc m) zero h j k inc e f p q =
    absurd (first_alone x jobs lo hi m h j inc (found x k f ∙ q) e p)
same_position (x ∷ jobs) lo hi (suc m) (suc n) h j k inc e f p q =
    let (lo', inc') = rest lo hi (notifies x) (operations jobs) inc in
    ap suc (same_position jobs lo' hi m n h j k inc' e f p q)

-- The status that a settled operation tells.
abbrev pub status_of : Settled → UpdateStatus
status_of notified = UpdateStatus.result
status_of failed = UpdateStatus.error
status_of stopped = UpdateStatus.stop

settle_inverse :
    (started : Bool) (job : Job) (status : UpdateStatus) (h : ℕ) (o : Settled)
    → settle started job status ≡ some (h, o)
    → (notifies job ≡ some h) × (status ≡ status_of o)
unfolding settle
settle_inverse started job status h o e = (ground arith, ground arith)

-- In every driver that is reached, two queued jobs whose ended pipelines settle the same operation
-- are the same job of the queue, and each tells the status of its own pipeline: success, failure or
-- stop.
pub settled_once :
    {i : LoraGatewayInit} {d : Driver}
    → Reach i d
    → (m n h : ℕ) (j k : Job) (s t : Bool) (u v : UpdateStatus) (o p : Settled)
    → get_elem? d.operation_queue m ≡ some j
    → get_elem? d.operation_queue n ≡ some k
    → settle s j u ≡ some (h, o)
    → settle t k v ≡ some (h, p)
    → (m ≡ n) × (u ≡ status_of o) × (v ≡ status_of p)
settled_once {d = d} r m n h j k s t u v o p e f a b =
    let (first, told) = settle_inverse s j u h o a in
    let (second, told') = settle_inverse t k v h p b in
    (
      same_position d.operation_queue 0 d.next_operation m n h j k (Reach-IsOrdered r) e f first
          second,
      told,
      told',
    )
