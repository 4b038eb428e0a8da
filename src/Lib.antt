-- ===== src/Lib.antt =====
-- lingx: a model and the correctness of the core of a server written after nginx (src/lingx).
--
-- The program reads its configuration, gives each module the directives that it knows, opens its
-- log, and runs an event loop in which timers and file descriptors post events that are handled
-- later. The configuration parser hands directives to the modules' setters; the event loop asks the
-- timers how long to wait, expires them, and serves the posted queues, which are built of the
-- intrusive queue; logs and errors write their text with the string functions. A new cycle is made
-- by the configuration parser over the modules' hooks; it opens its logs, writes the pid file and
-- starts the modules, of which the event core starts the poll module, whose entries the event loop
-- passes to poll(). main() reads the options, makes the first cycle, installs the signal handlers,
-- becomes a daemon, writes the pid file and enters the loop. A signal sets a flag that the loop looks at after each round.
--
-- Which file models which part (paths from the repository's root):
--   Strings       src/lingx/core/strings.cc, strings.h: Strncpy, Vslprintf, Memcpy, Atoi
--   Errors        src/lingx/core/error.cc: Strerror, Strerrno, Error::Error
--   Path          src/lingx/core/path.cc, path.h
--   Queue         src/lingx/core/queue.h, queue.cc: every macro, Queue_middle and Queue_sort
--   Events        src/lingx/core/event_posted.cc, event_timer.cc and event.cc (the setup: Events.Setup)
--   Poll          src/lingx/core/event_poll_module.cc: Poll_init_, Poll_done_, Poll_add_event_,
--                 Poll_del_event_, Poll_process_events_, Event_poll_init_conf_
--   Conf.Lexer    src/lingx/core/conf_file.cc: Conf::read_token_
--   Conf.Directives  the same file: Conf::handle_, and the Command and Module of module.h
--   Conf.Parse    the same file: Conf::parse and Conf::param
--   Conf.Values   the same file and conf_file.h: flags, Conf_init_value, Conf_merge_value
--   Cycle         src/lingx/core/cycle.cc: count_modules, init_connections_events, Init_new_cycle
--   Http          src/lingx/http/http.cc, http_core_module.cc
--   Log           src/lingx/core/log.cc: Log_insert, Get_file_log, the writes of Log::log, levels;
--                 Log.Files and Log.Setup: the opening of logs, there and in cycle.cc;
--                 Log.Message: the bytes of a message
--   Process       src/lingx/core/process.cc, process_cycle.cc; Process.Pidfile: the pid file of cycle.cc
--   Options       src/lingx/lingx.cc: Get_options_, Process_options_, the core module
--   Start         src/lingx/lingx.cc: main; Start.Preinit: src/lingx/core/module.cc;
--                 Start.Modules: modules.cc beside it, and the tables of the commands
--   Os            src/lingx/core/posix_init.cc, linux_init.cc; Os.Daemon: daemon.cc
--   Times         src/lingx/core/times.cc: Time_init, Time_update, Time_sigsafe_update
--   Io            src/lingx/core/recv.cc, send.cc, connection.cc, file.cc; Io.Open: open_file.cc
--   Base          tests, lists and integers that the parts share
--   Tests         runs of the definitions, and the theorems at concrete inputs
--
-- A byte is a number, a C string the list of the bytes before its terminator, a buffer the list of
-- its bytes; a pointer into it is an offset, and a function that moves a pointer returns the memory
-- and the new offset. A structure that others point to is a number, its address, and its fields are
-- functions of addresses, so that a store is seen through every pointer. A null pointer, a
-- descriptor of -1 and an index that is not set are `none`, or the number of the source where the
-- code compares it. Machine integers wrap where the code lets them (`sub_64` and `clamp_signed` of
-- the timers); a size or a count that cannot reach its bound in a running program is a plain number.
--
-- What is not under src/ is an argument: pread() and the size of the file for the tokenizer, the
-- results of recv(), send() and pwrite() in their order, the text of an error number and of a time,
-- the handlers of events, the setters of directives and the hooks of modules, and what open(),
-- poll(), kill() and sigaction() return. `Cycle.Init` takes the parser as an argument too, since the
-- setters that it calls are those of the modules.
--
-- Loops whose end the code does not show in its own bound take fuel, and `none` says that it ran
-- out: the tokenizer's, the parser's, the posted queue's and the timers'. Theorems below give an
-- amount that is enough: more rounds than there are characters left, than events in the queue, or
-- than timers in the set. `count_module_ctx_index_` takes one round more than there are modules,
-- which is enough since a round ends the search or passes an index that a module has. Both loops of
-- Queue_sort take one round more than there are nodes.
--
-- Not modelled: the texts of the version and the help, which are only printed; Timezone_update,
-- which calls the C library and keeps nothing; the text that `Conf::log_error` adds to its message;
-- and the declarations of buffers, of which only the tokenizer's fields are used.
pub mod Base
pub mod Conf
pub mod Cycle
pub mod Errors
pub mod Events
pub mod Http
pub mod Io
pub mod Log
pub mod Options
pub mod Os
pub mod Path
pub mod Poll
pub mod Process
pub mod Queue
pub mod Start
pub mod Strings
pub mod Tests
pub mod Times
