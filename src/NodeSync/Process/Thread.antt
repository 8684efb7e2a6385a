-- ===== src/NodeSync/Process/Thread.antt =====
-- The queue between `process_notification` and `package_processing_routine`, and the thread's loop.
use treeipc.Base.{
  ℕ, ◌≡◌, refl, sym, ap, ◌∙◌, List, [], ◌∷◌, ◌++◌, Bool, true, false, ◌&&◌, Option, none, some,
  append_assoc, append-nil, arith,
}
use treeipc.Types.{QtText}
use treeipc.Package.{Package}
use treeipc.Serializer.{Machine}
use treeipc.Generator.{Generator}
use treeipc.Queue.{push, pop}
use treeipc.NodeSync.State.{NodeSync}
use treeipc.NodeSync.Tree.{TreeApi}
use treeipc.NodeSync.Notify.{Action, ignored, replied, queued, process_notification}
use treeipc.NodeSync.Process.{Work, process_package}

-- A `node_sync` with its `package_queue`.
pub record Station : Type 0 where
  pub node : NodeSync
  pub queue : List Package

-- What `process_notification` puts into the queue.
abbrev pub kept : Action → List Package
kept ignored = []
kept (replied rep) = []
kept (queued p) = p ∷ []

abbrev pub enqueue : List Package → Action → List Package
enqueue q ignored = q
enqueue q (replied rep) = q
enqueue q (queued p) = push q p

module _ (qt : QtText) (api : TreeApi qt) (m : Machine) (g : Generator) where
  open api use {Tree}

  -- Both threads at work: from a station to a station, what `process_notification` queued and what
  -- the thread handled on the way, in order.
  pub data Run : Station → List Package → List Package → Station → Type 0 where
    rest : (x : Station) → Run x [] [] x
    notify :
        {x z : Station} {ins outs : List Package} (rep : Package) (p : Option Package)
        → (s : NodeSync) (action : Action) → process_notification x.node rep p ≡ some (s, action)
        → Run (record { node = s; queue = enqueue x.queue action }) ins outs z
        → Run x (kept action ++ ins) outs z
    handle :
        {x z : Station} {ins outs : List Package} (tree : Tree) (rep : Package) (address : ℕ)
        → (p : Package) (q : List Package) (s : NodeSync) (works : List (Work qt))
        → pop x.queue ≡ some (p, q)
        → process_package qt api m g tree x.node rep address p ≡ some (s, works)
        → Run (record { node = s; queue = q }) ins outs z
        → Run x ins (p ∷ outs) z

  pop-cons : (q r : List Package) (p : Package) → pop q ≡ some (p, r) → q ≡ p ∷ r
  unfolding pop
  pop-cons [] r p e = cc
  pop-cons (x ∷ q) r p e = ground arith

  enqueue-kept : (q : List Package) (action : Action) → enqueue q action ≡ q ++ kept action
  unfolding push
  enqueue-kept q ignored = sym (append-nil q)
  enqueue-kept q (replied rep) = sym (append-nil q)
  enqueue-kept q (queued p) = refl

  -- However the two threads are interleaved, and whatever the tree is at each step, the packages that
  -- the thread has handled, with those that still wait behind them, are those that waited at first
  -- with those queued behind them: each is handled once, in the order of arrival.
  pub Run-in_order :
      {x z : Station} {ins outs : List Package}
      → Run x ins outs z
      → outs ++ z.queue ≡ x.queue ++ ins
  Run-in_order (rest x) = sym (append-nil x.queue)
  Run-in_order (notify {x = x} {ins = ins} rep p s action e r) =
      Run-in_order r
      ∙ ap (λ q. q ++ ins) (enqueue-kept x.queue action)
      ∙ append_assoc x.queue (kept action) ins
  Run-in_order (handle {x = x} {ins = ins} tree rep address p q s works e h r) =
      ap (◌∷◌ p) (Run-in_order r) ∙ ap (λ l. l ++ ins) (sym (pop-cons x.queue q p e))

  -- A package with what it meets when it is handled: the tree, the response to a request of its
  -- handler, and the address of a node that is made.
  pub record Job : Type 0 where
    pub request : Package
    pub tree : Tree
    pub response : Package
    pub address : ℕ

  pub data Outcome : Type 0 where
    waits stops : NodeSync → List (Work qt) → Outcome
    faults : Outcome

  abbrev pub after_job : List (Work qt) → Outcome → Outcome
  after_job ws (waits s more) = waits s (ws ++ more)
  after_job ws (stops s more) = stops s (ws ++ more)
  after_job ws faults = faults

  abbrev pub after_handling : Option (NodeSync × List (Work qt)) → (NodeSync → Outcome) → Outcome
  after_handling none next = faults
  after_handling (some (s, ws)) next = after_job ws (next s)

  unfoldable pub handle_job : NodeSync → Job → Option (NodeSync × List (Work qt))
  handle_job s j = process_package qt api m g j.tree s j.response j.address j.request

  -- A round of the loop: `package_processing_thread_run` at its test, what `package_queue.pop` gives it
  -- then, where `none` is the null pointer, and the flag behind that.
  pub record Round : Type 0 where
    pub before : Bool
    pub got : Option Job
    pub after : Bool

  abbrev pub turn : NodeSync → Bool → Option Job → Bool → (NodeSync → Outcome) → Outcome
  turn s false got after next = stops s []
  turn s true none after next = stops s []
  turn s true (some j) false next = stops s []
  turn s true (some j) true next = after_handling (handle_job s j) next

  -- `package_processing_routine`, on its rounds. At the end of the queue the thread waits in `pop`.
  unfoldable pub routine : NodeSync → List Round → Outcome
  routine s [] = waits s []
  routine s (r ∷ more) = turn s r.before r.got r.after (λ s'. routine s' more)

  -- The rounds of jobs while the flag is up.
  unfoldable pub rounds_of : List Job → List Round
  rounds_of [] = []
  rounds_of (j ∷ jobs) = record { before = true; got = some j; after = true } ∷ rounds_of jobs

  -- The jobs, handled one after the other without a fault.
  pub data Handles : NodeSync → List Job → List (Work qt) → NodeSync → Type 0 where
    none_left : (s : NodeSync) → Handles s [] [] s
    first :
        {s s' s'' : NodeSync} {jobs : List Job} {more : List (Work qt)} (j : Job)
        → (ws : List (Work qt)) → handle_job s j ≡ some (s', ws)
        → Handles s' jobs more s''
        → Handles s (j ∷ jobs) (ws ++ more) s''

  after_job-nil : (o : Outcome) → after_job [] o ≡ o
  after_job-nil (waits s ws) = refl
  after_job-nil (stops s ws) = refl
  after_job-nil faults = refl

  after_job-append :
      (ws more : List (Work qt)) (o : Outcome)
      → after_job ws (after_job more o) ≡ after_job (ws ++ more) o
  after_job-append ws more (waits s ws') = ap (waits s) (sym (append_assoc ws more ws'))
  after_job-append ws more (stops s ws') = ap (stops s) (sym (append_assoc ws more ws'))
  after_job-append ws more faults = refl

  routine-Handles :
      {s s' : NodeSync} {jobs : List Job} {ws : List (Work qt)} (more : List Round)
      → Handles s jobs ws s'
      → routine s (rounds_of jobs ++ more) ≡ after_job ws (routine s' more)
  unfolding routine rounds_of
  routine-Handles more (none_left s) = sym (after_job-nil (routine s more))
  routine-Handles {s' = z} more (first {jobs = jobs} {more = later} j ws e r) =
      ap (λ r. after_handling r (λ t. routine t (rounds_of jobs ++ more))) e
      ∙ (ap (after_job ws) (routine-Handles more r) ∙ after_job-append ws later (routine z more))

  turn-stops :
      (s : NodeSync) (before after : Bool) (got : Option Job) (next : NodeSync → Outcome)
      → (before && after) ≡ false
      → turn s before got after next ≡ stops s []
  turn-stops s false after got next h = refl
  turn-stops s true after none next h = refl
  turn-stops s true false (some j) next h = refl
  turn-stops s true true (some j) next h = absurd (cc)

  -- Where the handlers of the packages do not fault, those of the rounds before the flag is cleared are
  -- handled, in order, and nothing from the round on in which it is cleared.
  pub routine-stops :
      {s s' : NodeSync} {jobs : List Job} {ws : List (Work qt)} (r : Round) (later : List Round)
      → Handles s jobs ws s'
      → (r.before && r.after) ≡ false
      → routine s (rounds_of jobs ++ (r ∷ later)) ≡ stops s' ws
  unfolding routine
  routine-stops {s' = z} {ws = ws} r later h cleared =
      routine-Handles (r ∷ later) h
      ∙ ap (after_job ws) (turn-stops z r.before r.after r.got (λ t. routine t later) cleared)
      ∙ ap (stops z) (append-nil ws)
