-- ===== src/Stream/Interest.antt =====
-- stream/interest.go: the watched subjects and the worker pool of ExactSubscription.
pub mod Ordering
mod Examples
use Prim.Native.Nat.{bit_xor}
use go_scada.Base.{
  ℕ, ◌+◌, ◌*◌, ◌/◌, ◌%◌, ◌^◌, Text, Bool, true, false, ltb, ◌==◌, List, [], ◌∷◌, ◌++◌, Option, none,
  some, Result, ok, err, Check, is_empty, trim_space, if◌then◌else◌, Dict, lookup, insert, remove,
  codes,
}
use go_scada.Value.{Value}

abbrev pub default_workers : ℕ
default_workers = 10

abbrev pub worker_queue : ℕ
worker_queue = 64

pub record Job : Type 0 where
  pub subject : Text
  pub value : Value

-- The state of an ExactSubscription: the full subject of each NATS subscription, the channels of the
-- workers, and the jobs that the handler was called with.
pub record Exact : Type 0 where
  pub system : Text
  pub watched : Dict Text
  pub workers : ℕ
  pub queues : ℕ → List Job
  pub handled : List Job
  pub stopped : Bool

-- The bytes of a code point.
utf8 : ℕ → List ℕ
utf8 c =
    if ltb c 0x80
    then c ∷ []
    else if ltb c 0x800
    then (0xc0 + c / 64) ∷ (0x80 + c % 64) ∷ []
    else if ltb c 0x10000
    then (0xe0 + c / 4096) ∷ (0x80 + c / 64 % 64) ∷ (0x80 + c % 64) ∷ []
    else (0xf0 + c / 262144) ∷ (0x80 + c / 4096 % 64) ∷ (0x80 + c / 64 % 64) ∷ (0x80 + c % 64) ∷ []

-- hash/fnv: FNV-1a with 32 bits.
hash_bytes : ℕ → List ℕ → ℕ
hash_bytes h [] = h
hash_bytes h (b ∷ bs) = hash_bytes (bit_xor h b * 16777619 % 2 ^ 32) bs

hash_text : ℕ → Text → ℕ
unfolding utf8 hash_bytes
hash_text h [] = h
hash_text h (c ∷ s) = hash_text (hash_bytes h (utf8 c)) s

unfoldable pub worker_index : Text → ℕ → ℕ
unfolding hash_text
worker_index subject workers = if workers == 0 then 0 else hash_text 2166136261 subject % workers

-- SubscribeExact, once its arguments are checked.
unfoldable pub subscribe_exact : Text → Exact
subscribe_exact system = record {
  system = system;
  watched = [];
  workers = default_workers;
  queues = λ i. [];
  handled = [];
  stopped = false;
}

enqueue : ℕ → Job → (ℕ → List Job) → ℕ → List Job
enqueue i job queues j = if j == i then queues j ++ job ∷ [] else queues j

dequeue : ℕ → List Job → (ℕ → List Job) → ℕ → List Job
dequeue i rest queues j = if j == i then rest else queues j

-- dispatch, when the context is not done: the job goes to the worker of its subject.
unfoldable pub dispatch : Job → Exact → Exact
unfolding enqueue
dispatch job x = record x { queues = enqueue (worker_index job.subject x.workers) job x.queues }

take_job : ℕ → List Job → Exact → Exact
take_job i [] x = x
take_job i (job ∷ rest) x = record x {
  queues = dequeue i rest x.queues;
  handled = x.handled ++ job ∷ [];
}

-- One round of runWorker, on the channel of worker i.
unfoldable pub run_worker : ℕ → Exact → Exact
unfolding take_job dequeue
run_worker i x = take_job i (x.queues i) x

pub data InterestError : Type 0 where
  subject_required : InterestError
  subscribe_failed : Text → InterestError

subscribed : Text → Text → Check Text → Exact → Check InterestError × Exact
subscribed subject full (err e) x = (err (subscribe_failed full), x)
subscribed subject full (ok _) x = (ok tt, record x { watched = insert subject full x.watched })

watch_new : Text → Check Text → Option Text → Exact → Check InterestError × Exact
unfolding subscribed
watch_new subject outcome (some _) x = (ok tt, x)
watch_new subject outcome none x = subscribed subject (x.system ++ codes "." ++ subject) outcome x

-- ensure up to the unlock; `outcome` is what Subscribe returns if it is called.
unfoldable pub watch : Text → Check Text → Exact → Check InterestError × Exact
unfolding watch_new
watch subject outcome x =
    let name = trim_space subject in
    if is_empty name
    then (err subject_required, x)
    else watch_new name outcome (lookup name x.watched) x

unfoldable pub unwatch : Text → Exact → Check InterestError × Exact
unwatch subject x =
    let name = trim_space subject in
    if is_empty name
    then (err subject_required, x)
    else (ok tt, record x { watched = remove name x.watched })

-- Stop: the channels are closed, and what waits in them is still handled.
unfoldable pub stop : Exact → Exact
stop x = record x { watched = []; stopped = true }
