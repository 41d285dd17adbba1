-- ===== src/Node.antt =====
-- The judge node: the pure parts of src/judge/node/executor.py and the eviction of
-- src/judge/node/datacache.py. What a process does is an argument: the bytes that it writes, how the pipe
-- splits them, its exit code, its time and its memory, and so is the result of one case.
pub mod Pipes
pub mod Completions
pub mod Runs
pub mod Cache
pub mod Verdicts
use pigeon_oj.Base.{
  ℕ, zero, suc, ◌+◌, ◌-◌, ◌*◌, min, Bool, true, false, not, ◌&&◌, ◌||◌, Option, none, some, List,
  [], ◌∷◌, ◌++◌, length, map, take, drop, any, ltb, leb, ◌==◌, sum_by, if◌then◌else◌,
}
use pigeon_oj.Base.Sorting.{sort_by}

pub data RunStatus : Type 0 where
  ok accepted wrong_answer time_limit_exceeded memory_limit_exceeded : RunStatus
  output_limit_exceeded runtime_error compile_error system_error : RunStatus

abbrev pub is_ok : RunStatus → Bool
is_ok RunStatus.ok = true
is_ok _ = false

abbrev pub is_accepted : RunStatus → Bool
is_accepted RunStatus.accepted = true
is_accepted _ = false

-- _FATAL_CASE_STATUSES
abbrev pub is_fatal : RunStatus → Bool
is_fatal RunStatus.compile_error = true
is_fatal RunStatus.system_error = true
is_fatal _ = false

-- the largest read from a pipe
abbrev pub pipe_read_chunk : ℕ
pipe_read_chunk = 65536

-- `pipe.read(n)` gives at least one byte where there is one; `gives` says how many more at each read
unfoldable pub read_loop : ℕ → ℕ → (ℕ → ℕ) → ℕ → List ℕ → List ℕ → Option (List ℕ × Bool)
read_loop zero limit gives i buf rest = none
read_loop (suc fuel) limit gives i buf rest =
    let room = (limit + 1) - length buf in
    let size = min (suc (gives i)) (min pipe_read_chunk room) in
    let more = read_loop fuel limit gives (suc i) (buf ++ take size rest) (drop size rest) in
    if room == 0
    then some (buf, true)
    else if length rest == 0
    then some (buf, ltb limit (length buf))
    else more

-- _read_limited, of a pipe that holds these bytes
unfoldable pub read_limited : ℕ → ℕ → (ℕ → ℕ) → List ℕ → Option (List ℕ × Bool)
unfolding read_loop
read_limited fuel limit gives bytes = read_loop fuel limit gives 0 [] bytes

-- _is_cpu_tle, of an exit code and of a signal (a negative return code)
pub data ReturnCode : Type 0 where
  code signal : ℕ → ReturnCode

abbrev pub sigxcpu : ℕ
sigxcpu = 24

unfoldable pub is_cpu_tle : ReturnCode → Bool
is_cpu_tle (code n) = n == 128 + sigxcpu
is_cpu_tle (signal n) = n == sigxcpu

abbrev pub failed : ReturnCode → Bool
failed (code n) = not (n == 0)
failed (signal n) = true

-- what `run` has measured; `out_of_memory`: stderr holds one of the messages of a failed allocation
pub record Measured : Type 0 where
  pub timed_out : Bool
  pub elapsed_ms : ℕ
  pub returncode : ReturnCode
  pub memory_kb : Option ℕ
  pub output_exceeded : Bool
  pub stdout_length : ℕ
  pub stderr_length : ℕ
  pub out_of_memory : Bool

abbrev pub over : Option ℕ → ℕ → Bool
over none limit = false
over (some m) limit = ltb limit m

-- the verdict of NsjailExecutor.run
unfoldable pub run_status : ℕ → ℕ → ℕ → Measured → RunStatus
unfolding is_cpu_tle
run_status time_limit_ms memory_limit_mb output_limit m =
    if m.timed_out || (ltb time_limit_ms m.elapsed_ms || is_cpu_tle m.returncode)
    then RunStatus.time_limit_exceeded
    else if over m.memory_kb (memory_limit_mb * 1024)
    then RunStatus.memory_limit_exceeded
    else if m.output_exceeded
        || (ltb output_limit m.stdout_length || ltb output_limit m.stderr_length)
    then RunStatus.output_limit_exceeded
    else if failed m.returncode && m.out_of_memory
    then RunStatus.memory_limit_exceeded
    else if failed m.returncode
    then RunStatus.runtime_error
    else RunStatus.ok

-- _spj_verdict, of the checker's status and exit code
unfoldable pub spj_verdict : RunStatus → ℕ → RunStatus
spj_verdict status exit_code =
    if not (is_ok status) || ((exit_code == 3) || (exit_code == 4))
    then RunStatus.system_error
    else if exit_code == 0
    then RunStatus.accepted
    else RunStatus.wrong_answer

module _ {C : Type 0} (run : ℕ → C → RunStatus) where
  -- the results of some cases, in their order
  unfoldable pub run_batch : ℕ → List C → List RunStatus
  run_batch index [] = []
  run_batch index (c ∷ cs) = run index c ∷ run_batch (suc index) cs

module _ {C : Type 0} (run : ℕ → C → RunStatus) (cancelled : ℕ → Bool) where
  -- _run_cases_serial; `cancelled i`: the job has been cancelled when case i is due
  unfoldable pub run_cases_serial : Bool → ℕ → List C → List RunStatus
  run_cases_serial stop_on_failure index [] = []
  run_cases_serial stop_on_failure index (c ∷ cs) =
      let rest = run_cases_serial stop_on_failure (suc index) cs in
      let result = run index c in
      if cancelled index
      then []
      else if is_fatal result || (stop_on_failure && not (is_accepted result))
      then result ∷ []
      else result ∷ rest

-- `enumerate(cases, start=index)`
unfoldable pub enumerate : {C : Type 0} → ℕ → List C → List (ℕ × C)
enumerate index [] = []
enumerate index (c ∷ cs) = (index, c) ∷ enumerate (suc index) cs

-- `ordered[index] = result`
unfoldable pub write_at : ℕ → RunStatus → List (Option RunStatus) → List (Option RunStatus)
write_at i x [] = []
write_at zero x (o ∷ os) = some x ∷ os
write_at (suc i) x (o ∷ os) = o ∷ write_at i x os

-- `[None] * len(cases)`
abbrev pub blank : {C : Type 0} → List C → List (Option RunStatus)
blank cs = map (λ c. none) cs

-- `[item for item in ordered if item is not None]`
unfoldable pub present : List (Option RunStatus) → List RunStatus
present [] = []
present (none ∷ os) = present os
present (some x ∷ os) = x ∷ present os

module _ {C : Type 0} (run : ℕ → C → RunStatus) where
  -- the loop over as_completed
  unfoldable pub store_results : List (ℕ × C) → List (Option RunStatus) → List (Option RunStatus)
  unfolding write_at
  store_results [] ordered = ordered
  store_results (e ∷ es) ordered = store_results es (write_at e.0 (run e.0 e.1) ordered)

  -- `stop_more`
  abbrev pub stops : List (ℕ × C) → Bool
  stops es = any (λ e. is_fatal (run e.0 e.1)) es

-- `completed i batch` lists the numbered cases of the batch from case i on in the order in which they complete
module _ {C : Type 0} (run : ℕ → C → RunStatus) (cancelled : ℕ → Bool)
    (completed : ℕ → List (ℕ × C) → List (ℕ × C)) where
  -- _run_cases_parallel: batch by batch; a batch is never empty, so that the cases are fuel enough
  unfoldable pub run_batches :
      ℕ → ℕ → ℕ → List C → List (Option RunStatus) → List (Option RunStatus)
  unfolding enumerate store_results
  run_batches zero workers index cs ordered = ordered
  run_batches (suc fuel) workers index cs ordered =
      let done = completed index (enumerate index (take workers cs)) in
      let after = store_results run done ordered in
      let rest = run_batches fuel workers (index + workers) (drop workers cs) after in
      if (length cs == 0) || cancelled index
      then ordered
      else if stops run done
      then after
      else rest

  unfoldable pub run_cases_parallel : ℕ → List C → List RunStatus
  unfolding run_batches present
  run_cases_parallel workers cs = present (run_batches (length cs) workers 0 cs (blank cs))

-- a directory of ProblemDataCache
pub record Entry : Type 0 where
  pub modified : ℕ
  pub size : ℕ
  pub name : ℕ

-- what `collect` leaves and what it removes
pub record Collected : Type 0 where
  pub kept : List Entry
  pub removed : List Entry

-- the loop of ProblemDataCache.collect over the entries from the oldest on
unfoldable pub evict : ℕ → (ℕ → Bool) → ℕ → List Entry → Collected
evict max_bytes in_use total [] = record { kept = []; removed = [] }
evict max_bytes in_use total (e ∷ es) =
    let later = evict max_bytes in_use total es in
    let smaller = evict max_bytes in_use (total - e.size) es in
    if leb total max_bytes
    then record { kept = e ∷ es; removed = [] }
    else if in_use e.name
    then record { kept = e ∷ later.kept; removed = later.removed }
    else record { kept = smaller.kept; removed = e ∷ smaller.removed }

-- ProblemDataCache.collect
unfoldable pub collect : ℕ → (ℕ → Bool) → List Entry → Collected
unfolding evict
collect max_bytes in_use entries =
    let total = sum_by (λ e. e.size) entries in
    if (max_bytes == 0) || leb total max_bytes
    then record { kept = entries; removed = [] }
    else evict max_bytes in_use total (sort_by (λ a b. ltb a.modified b.modified) entries)
