-- ===== src/App.antt =====
-- main.c and lib/app.h: the states of the application. What the outside decides about a turn of the
-- loop of `main` is its `Turn`. The process ends with `none`.
pub mod Consistent
mod Tests
use regonf.Prelude.{
  Bool, true, false, not, ◌&&◌, ◌||◌, Option, none, some, List, [], ◌∷◌, if◌then◌else◌,
}

-- `State`, with the source's prefix APP_ left off
pub data AppState : Type 0 where
  init init_data run stop reset exit : AppState

-- Which of the lists hold items
pub record Lists : Type 0 where
  pub peer_list : Bool
  pub sensor_list : Bool
  pub em_list : Bool
  pub prog_list : Bool

pub record App : Type 0 where
  pub state : AppState
  pub data_initialized : Bool
  pub lists : Lists

-- What `serverRun` reads: the commands of SERVER_APP_ACTIONS that change the state; PROG_STOP,
-- PROG_START and PROG_RESET, which leave programs in `prog_list` or none; any other request, or none
pub data AppRequest : Type 0 where
  app_start app_stop app_reset app_exit other : AppRequest
  prog_list_request : (left : Bool) → AppRequest

-- Whether `initApp` and the four calls of `initData` succeed, and which lists get items: a list of no
-- rows is loaded with success and stays empty. `progs_some` also tells whether a `loadActiveProg` that
-- fails has added programs.
pub record Turn : Type 0 where
  pub app_ok : Bool
  pub peers_ok : Bool
  pub sensors_ok : Bool
  pub ems_ok : Bool
  pub progs_ok : Bool
  pub peers_some : Bool
  pub sensors_some : Bool
  pub ems_some : Bool
  pub progs_some : Bool
  pub request : AppRequest

-- `freeData`
abbrev pub free_data : Lists → Lists
free_data l = record { peer_list = false; sensor_list = false; em_list = false; prog_list = false }

-- `initData`. The first three calls reset their list and, when they fail, leave it empty; `loadActiveProg`
-- adds to the list of programs, which is freed with the others when it fails.
unfoldable pub load : Turn → Lists → Bool × Lists
load t l =
    let l1 = record l { peer_list = t.peers_ok && t.peers_some } in
    let l2 = record l1 { sensor_list = t.sensors_ok && t.sensors_some } in
    let l3 = record l2 { em_list = t.ems_ok && t.ems_some } in
    let l4 = record l3 { prog_list = l.prog_list || t.progs_some } in
    if not t.peers_ok
    then (false, l1)
    else if not t.sensors_ok
    then (false, record l2 { peer_list = false })
    else if not t.ems_ok
    then (false, record l3 { sensor_list = false; peer_list = false })
    else if not t.progs_ok
    then (
      false,
      record l4 { prog_list = false; em_list = false; sensor_list = false; peer_list = false },
    )
    else (true, l4)

-- SERVER_APP_ACTIONS, with `init_state`
unfoldable pub app_actions : AppRequest → (init_state : Bool) → AppState → AppState
app_actions app_start init_state state = if init_state then state else init_data
app_actions app_stop init_state state = if init_state then stop else state
app_actions app_reset init_state state = reset
app_actions app_exit init_state state = exit
app_actions other init_state state = state
app_actions (prog_list_request left) init_state state = state

-- The rest of `serverRun`, which returns early where `init_state` is 0
unfoldable pub server_actions : AppRequest → (init_state : Bool) → Lists → Lists
server_actions (prog_list_request left) init_state l =
    if init_state then record l { prog_list = left } else l
server_actions _ init_state l = l

-- One turn of the loop of `main`
unfoldable pub turn_in : AppState → Turn → App → Option App
unfolding load app_actions server_actions
turn_in init t app = if t.app_ok then some (record app { state = init_data }) else none
turn_in init_data t app =
    let (ok, lists) = load t app.lists in
    some (record { state = run; data_initialized = ok; lists = lists })
turn_in run t app = some (record app {
  state = app_actions t.request app.data_initialized app.state;
  lists = server_actions t.request app.data_initialized app.lists;
})
turn_in stop t app =
    some (record { state = run; data_initialized = false; lists = free_data app.lists })
turn_in reset t app =
    some (record { state = init; data_initialized = false; lists = free_data app.lists })
turn_in exit t app = none

unfoldable pub turn : Turn → App → Option App
unfolding turn_in
turn t app = turn_in app.state t app

unfoldable pub turns : List Turn → App → Option App
unfolding turn
turns [] app = some app
turns (t ∷ ts) app = elim (turn t app) [ none ↦ none | some app' ↦ turns ts app' ]

-- The start of `main`
abbrev pub app_at_start : App
app_at_start = record {
  state = init;
  data_initialized = false;
  lists = record { peer_list = false; sensor_list = false; em_list = false; prog_list = false };
}
