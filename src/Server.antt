-- ===== src/Server.antt =====
-- main.c: what `serverRun` does to the programs on the commands that change them, after the rows of
-- the request have been read. Each handler is a step of its own, as under the mutex of its program;
-- `lockMutex` on a mutex of a program in the list is taken to succeed.
pub mod Update
pub mod Answer
pub mod Dispatch
pub mod Lifecycle
pub mod Query
pub mod RowTexts
pub mod Soundness
mod Tests
use regonf.Prelude.{ℕ, Bool, true, false, not, Option, none, some, List, [], ◌∷◌, if◌then◌else◌}
use regonf.Prelude.Int.{ℤ, pos, eq_ℤ}
use regonf.Float.{FloatOps}
use regonf.Acp.{Link}
use regonf.Regonfhc.{RegOnfHc}
use regonf.Regonfhc.Handlers
use regonf.ProgList.{Prog, ProgList, Heap, store, get_prog_by_id}

-- The columns of the table "prog" that the server writes
pub data Field : Type 0 where
  enable_field save_field goal_field heater_delta_field cooler_delta_field change_gap_field
        em_mode_field :
      Field

-- `db_saveTableFieldInt`, `db_saveTableFieldFloat` and `db_saveTableFieldText` on the table "prog",
-- with the id of the row
pub record Database (F W : Type 0) : Type 0 where
  pub save_int : Field → (id : ℤ) → ℤ → W → W
  pub save_float : Field → (id : ℤ) → F → W → W
  pub save_text : Field → (id : ℤ) → List ℕ → W → W

-- What a handler changes of a program: `reg` and `save`
abbrev pub Handler : Type 0 → Type 0 → Type 0
Handler F W = ℤ → RegOnfHc F → ℤ → W → RegOnfHc F × ℤ × W

-- The commands with their rows
pub data Command (F : Type 0) : Type 0 where
  prog_enable prog_disable : List ℤ → Command F
  prog_set_save : List (ℤ × ℤ) → Command F
  reg_prog_set_heater_power reg_prog_set_cooler_power reg_prog_set_goal : List (ℤ × F) → Command F
  regonf_prog_set_heater_delta regonf_prog_set_cooler_delta : List (ℤ × F) → Command F
  reg_prog_set_change_gap : List (ℤ × ℤ) → Command F
  reg_prog_set_em_mode : List (ℤ × List ℕ) → Command F

-- `if (item->save) …`
abbrev pub if_save : {W : Type 0} → ℤ → (W → W) → W → W
if_save save f w = if eq_ℤ save (pos 0) then w else f w

module _ {F W : Type 0} where
  -- The program at an address is given to a handler.
  unfoldable pub handle_at : Handler F W → Option (Option ℕ) → Heap F → W → Option (Heap F × W)
  handle_at f none h w = none
  handle_at f (some none) h w = some (h, w)
  handle_at f (some (some a)) h w = elim (h a) [
    | none ↦ none
    | some p ↦
        let (reg, save, w') = f p.id p.reg p.save w in
        some (store h a (some (record p { reg = reg; save = save })), w')
  ]

  -- `getProgById`, and what is done if there is such a program
  unfoldable pub handle : ℤ → Handler F W → Heap F → ProgList → W → Option (Heap F × W)
  unfolding handle_at
  handle id f h l w = handle_at f (get_prog_by_id id h l) h w

  -- The loop over the rows of a request
  unfoldable pub handle_rows :
      {A : Type 0}
      → (A → ℤ)
      → (A → Handler F W)
      → List A
      → Heap F
      → ProgList
      → W
      → Option (Heap F × W)
  unfolding handle
  handle_rows id f [] h l w = some (h, w)
  handle_rows id f (row ∷ rows) h l w = elim (handle (id row) (f row) h l w) [
    | none ↦ none
    | some (h', w') ↦ handle_rows id f rows h' l w'
  ]

module _ {F W : Type 0} ⦃float : FloatOps F⦄ ⦃link : Link F W⦄ (db : Database F W) where
  -- The bodies of the loops of `serverRun`
  abbrev pub on_enable : Handler F W
  on_enable id reg save w =
      (Handlers.enable reg, save, if_save save (db.save_int enable_field id (pos 1)) w)

  abbrev pub on_disable : Handler F W
  on_disable id reg save w =
      (Handlers.disable_reg reg, save, if_save save (db.save_int enable_field id (pos 0)) w)

  abbrev pub on_set_save : ℤ × ℤ → Handler F W
  on_set_save (_, v) id reg save w = (reg, v, if_save v (db.save_int save_field id v) w)

  abbrev pub on_set_heater_power : ℤ × F → Handler F W
  on_set_heater_power (_, v) id reg save w =
      let (reg', w') = Handlers.set_heater_power reg v w in (reg', save, w')

  abbrev pub on_set_cooler_power : ℤ × F → Handler F W
  on_set_cooler_power (_, v) id reg save w =
      let (reg', w') = Handlers.set_cooler_power reg v w in (reg', save, w')

  abbrev pub on_set_goal : ℤ × F → Handler F W
  on_set_goal (row, v) id reg save w = (
    Handlers.secure_out_touch (Handlers.set_goal reg v),
    save,
    if_save save (db.save_float goal_field row v) w,
  )

  abbrev pub on_set_heater_delta : ℤ × F → Handler F W
  on_set_heater_delta (row, v) id reg save w = (
    Handlers.set_heater_delta reg v,
    save,
    if_save save (db.save_float heater_delta_field row v) w,
  )

  abbrev pub on_set_cooler_delta : ℤ × F → Handler F W
  on_set_cooler_delta (row, v) id reg save w = (
    Handlers.set_cooler_delta reg v,
    save,
    if_save save (db.save_float cooler_delta_field row v) w,
  )

  abbrev pub on_set_change_gap : ℤ × ℤ → Handler F W
  on_set_change_gap (row, v) id reg save w =
      (Handlers.set_change_gap reg v, save, if_save save (db.save_int change_gap_field row v) w)

  abbrev pub on_set_em_mode : ℤ × List ℕ → Handler F W
  on_set_em_mode (row, v) id reg save w =
      let (reg', w') = Handlers.set_em_mode reg v w in
      (reg', save, if_save save (db.save_text em_mode_field row v) w')

  unfoldable pub serve : Command F → Heap F → ProgList → W → Option (Heap F × W)
  serve (prog_enable rows) = handle_rows (λ id. id) (λ id. on_enable) rows
  serve (prog_disable rows) = handle_rows (λ id. id) (λ id. on_disable) rows
  serve (prog_set_save rows) = handle_rows (λ r. r.0) on_set_save rows
  serve (reg_prog_set_heater_power rows) = handle_rows (λ r. r.0) on_set_heater_power rows
  serve (reg_prog_set_cooler_power rows) = handle_rows (λ r. r.0) on_set_cooler_power rows
  serve (reg_prog_set_goal rows) = handle_rows (λ r. r.0) on_set_goal rows
  serve (regonf_prog_set_heater_delta rows) = handle_rows (λ r. r.0) on_set_heater_delta rows
  serve (regonf_prog_set_cooler_delta rows) = handle_rows (λ r. r.0) on_set_cooler_delta rows
  serve (reg_prog_set_change_gap rows) = handle_rows (λ r. r.0) on_set_change_gap rows
  serve (reg_prog_set_em_mode rows) = handle_rows (λ r. r.0) on_set_em_mode rows
