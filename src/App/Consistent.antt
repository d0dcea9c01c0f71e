-- ===== src/App/Consistent.antt =====
-- main.c: what the states of the application say about the lists.
use regonf.Prelude.{◌≡◌, refl, Bool, true, false, Option, none, some, List, [], ◌∷◌, arith}
use regonf.App.{
  App, AppState, Lists, Turn, init, init_data, load, app_actions, server_actions, turn_in, turn,
  turns,
}

-- No list holds items.
abbrev pub AreEmpty : Lists → Type 0
AreEmpty l =
    (l.peer_list ≡ false) × (l.sensor_list ≡ false) × (l.em_list ≡ false) × (l.prog_list ≡ false)

-- The states in which nothing has been initialised
abbrev pub is_initial : AppState → Bool
is_initial init = true
is_initial init_data = true
is_initial _ = false

pub record IsConsistent (app : App) : Type 0 where
  pub empty : app.data_initialized ≡ false → AreEmpty app.lists
  pub fresh : is_initial app.state ≡ true → app.data_initialized ≡ false

-- The property, unless the process has ended
abbrev pub Unless : (App → Type 0) → Option App → Type 0
Unless P none = Unit
Unless P (some app) = P app

turn_in-IsConsistent :
    (s : AppState) (t : Turn) (app : App)
    → app.state ≡ s
    → IsConsistent app
    → Unless IsConsistent (turn_in s t app)
unfolding turn_in load app_actions server_actions
turn_in-IsConsistent s t app e c = ground (arith, e)

turns-next :
    (o : Option App) (ts : List Turn)
    → Unless IsConsistent o
    → ((app : App) → IsConsistent app → Unless IsConsistent (turns ts app))
    → Unless IsConsistent (elim o [ none ↦ none | some app ↦ turns ts app ])
turns-next none ts u next = tt
turns-next (some app) ts u next = next app u

-- After any turns of the loop of `main`, whatever the calls and the requests in them do, the process
-- has ended or the following hold, if they held before. While the data do not count as initialised, all four lists are empty;
-- and in the states in which the data are about to be initialised they do not count as initialised, so
-- that `initData` resets no list that holds items.
pub turns-IsConsistent :
    (ts : List Turn) (app : App) → IsConsistent app → Unless IsConsistent (turns ts app)
unfolding turns turn
turns-IsConsistent [] app c = c
turns-IsConsistent (t ∷ ts) app c =
    turns-next (turn t app) ts (turn_in-IsConsistent app.state t app refl c)
      (λ app' c'. turns-IsConsistent ts app' c')
