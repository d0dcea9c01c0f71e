-- ===== src/Lib.antt =====
-- Verification of regonf, a controller that keeps a value near its goal by switching a heater and
-- a cooler on and off. A thread per program runs the cycle of a regulator (lib/regonfhc.c): it reads
-- a sensor and drives the mechanisms, both over UDP with the protocol of lib/acp/main.c, while the
-- server of main.c changes the same regulator on the commands of its clients, under a mutex.
--
-- The parts:
-- * App models the loop of `main` in main.c with `initData` and `freeData`, and the commands of
--   lib/app.h that change the state of the application.
-- * Timef models lib/timef.h and lib/timef.c: `struct timespec`, its macros, the timer `Ton_ts`.
-- * Acp models the shared data of lib/acp/main.h and the reading of a sensor and the setting of a
--   mechanism in lib/acp/main.c. The exchange of packets is the interface `Link`, an argument.
--   Acp/Packet models the packets themselves: Packet builds and checks them (`acp_requestPack`,
--   `acp_packlen`, `acp_crcCheck`), Parse and Response read them (`acp_requestParse`, `acp_cmdcmp`,
--   `acp_responseParse`), Rows makes the rows of the data and ReadRows reads them (`acp_dataTo...List`).
--   Acp/Exchange models the functions that ask a peer and read its response, over packets.
-- * Crc models lib/crc.c.
-- * Reg models lib/reg.h, lib/reg.c and lib/green_light.c: the states, the duty cycles for a client
--   that has gone silent, the light that lets a regulator start.
-- * Regonfhc models lib/regonfhc.h and lib/regonfhc.c. Control is `regonfhc_control`, with one
--   function for each state (`control_init`, `control_busy`, ...); Handlers has the other functions,
--   under the names of the source; Events is a regulator's life as a sequence of these calls.
-- * ProgList models the linked list of programs of main.h, util.c and db.c on a heap: `getProgById`,
--   `addProg`, `deleteProgById`, `freeProgList`. Their loops run on fuel, which is the
--   `length` of the list.
-- * Server models the commands of `serverRun` in main.c that change running programs: the loop over
--   the rows of a request, the search of the program, the handler of Regonfhc and the write to the
--   database, which is the interface `Database`. Query has the commands that ask, with the rows of
--   util.c (`bufCatProg...`); Lifecycle those that start, stop and reset programs, and `addProgById`
--   of db.c, with threads, sockets and the database as the interface `Spawn`; a thread may fail to be
--   created. Dispatch recognises a request and reads its rows.
-- * Config models what is read from the databases: Lists the loading of the peers, sensors and
--   mechanisms in lib/configl.c over db_exec of lib/dbl.c, Program the reading of a program's row in
--   db.c with the secure settings of lib/reg.c, Single that of one item, Save the writes of lib/dbl.c,
--   which the handlers of main.c call. SQLite is the interface `Sqlite`.
-- * Pwm models the pulse-width modulation of lib/pwm.c.
-- * Tsv models the tables in text files of lib/tsv.c: Tsv the parser, Getters `TSVinit` and the functions
--   that read cells. Trip prints a table, for the theorems on reading it back.
-- * Filter models the filters of lib/filter/ma.c and exp.c and the corrections of lib/lcorrection.c and
--   lib/lreduction.c; Pid models lib/pid.c, less its tuning.
-- * Regpidonfhc models lib/regpidonfhc.c, the regulator that drives its mechanisms by PID or on and off,
--   in the same parts as Regonfhc. Pm models lib/pm.c, the parallel modulation: a group of pins of which
--   as many are on as the power asks for. This program links neither these two nor Filter and Pid.
-- * Prelude, CString (with Buffer, the character arrays, and Decimal), Float and Bench are helpers:
--   lists, bits and integers, strings and `sscanf`, what the code uses of floats, and concrete values
--   for the tests.
--
-- Conventions. A function that reads or changes the world (clock, network) takes it as the argument
-- `w` and returns it. A function that would dereference a null pointer returns `none`. Floats are a
-- type with the operations of `FloatOps` and no laws, so that nothing rests on real arithmetic; what a
-- theorem needs of them, as of their printing, is a hypothesis of it.
-- Integers of C are unbounded, but for the words that are treated as bits, which are below 2 ^ 32
-- or 2 ^ 8. Strings are lists of character codes without the final NUL. Names are those of the
-- source in this language's spelling; `use` and `REG_DO` are `use_em` and `run_do`.
--
-- Not modelled: access to hardware and sockets, the settings that are read from a table, the lists
-- of phone numbers, what threads do at once, the regulator of lib/regpidonf.c, which the program does not
-- link, the output of messages.
pub mod Acp
pub mod App
pub mod Bench
pub mod CString
pub mod Config
pub mod Crc
pub mod Filter
pub mod Float
pub mod Pid
pub mod Pm
pub mod Prelude
pub mod ProgList
pub mod Pwm
pub mod Reg
pub mod Regonfhc
pub mod Regpidonfhc
pub mod Server
pub mod Timef
pub mod Tsv
