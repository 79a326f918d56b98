-- ===== src/Command/Tasks.antt =====
-- tryRunTask of internal/command/download.go, GlobalSem and userTasks of the Handler in
-- internal/command/common.go, and ActiveTasksFn of cmd/x_sticker_bot/main.go. Each update runs in a
-- goroutine of its own; one action on shared state is one step, and a schedule picks who acts.
pub mod Slots
pub mod Progress
pub mod Termination
use x_sticker_bot.Base.{
  ℕ, ◌+◌, ◌-◌, Bool, true, false, Option, none, some, List, [], ◌∷◌, map, ltb, ◌==◌, if◌then◌else◌,
  get_elem?, set, lookup, insert, erase, nat_eq,
}

abbrev pub max_global_tasks : ℕ
max_global_tasks = 20

-- Where a goroutine stands in tryRunTask.
pub data Phase : Type 0 where
  -- before `userTasks.LoadOrStore(uid, true)`
  arrived : Phase
  -- the user had a task: `UserBusy` is sent and false returned
  user_busy : Phase
  -- before the `select` on GlobalSem
  claimed : Phase
  -- the channel was full: before `userTasks.Delete(uid)`
  backing_out : Phase
  -- `ServerBusy` is sent and false returned
  server_busy : Phase
  -- in `fn()`
  running : Phase
  -- the deferred function, before `userTasks.Delete(uid)`
  leaving : Phase
  -- the deferred function, before `<-h.GlobalSem`
  releasing : Phase
  -- true returned
  finished : Phase

pub record Thread : Type 0 where
  pub uid : ℕ
  pub phase : Phase

-- `sem` is the number of elements in the channel GlobalSem, `capacity` its capacity.
pub record System : Type 0 where
  pub capacity : ℕ
  pub sem : ℕ
  pub user_tasks : List (ℕ × Bool)
  pub threads : List Thread

abbrev pub goto : System → ℕ → ℕ → Phase → System
goto s i u p = record s { threads = set s.threads i (record { uid = u; phase = p }) }

-- The next action of goroutine `i`, of user `u`.
unfoldable pub act : Phase → System → ℕ → ℕ → System
act arrived s i u = elim (lookup u s.user_tasks) [
  | none ↦ goto (record s { user_tasks = insert u true s.user_tasks }) i u claimed
  | some _ ↦ goto s i u user_busy
]
act claimed s i u =
    if ltb s.sem s.capacity
    then goto (record s { sem = s.sem + 1 }) i u running
    else goto s i u backing_out
act backing_out s i u = goto (record s { user_tasks = erase u s.user_tasks }) i u server_busy
act running s i u = goto s i u leaving
act leaving s i u = goto (record s { user_tasks = erase u s.user_tasks }) i u releasing
-- A receive from an empty channel blocks.
act releasing s i u = if s.sem == 0 then s else goto (record s { sem = s.sem - 1 }) i u finished
act user_busy s i u = s
act server_busy s i u = s
act finished s i u = s

unfoldable pub step : System → ℕ → System
unfolding act
step s i = elim (get_elem? s.threads i) [ none ↦ s | some th ↦ act th.phase s i th.uid ]

unfoldable pub run : System → List ℕ → System
run s [] = s
run s (i ∷ is) = run (step s i) is

-- newCommandHandler: a channel of MaxGlobalTasks slots and an empty map; the updates come from
-- these users.
unfoldable pub start : List ℕ → System
start uids = record {
  capacity = max_global_tasks;
  sem = 0;
  user_tasks = [];
  threads = map (λ u. record { uid = u; phase = arrived }) uids;
}

-- ActiveTasksFn: `len(h.GlobalSem), cap(h.GlobalSem)`.
pub active_tasks : System → ℕ × ℕ
active_tasks s = (s.sem, s.capacity)
