-- ===== src/Lib.antt =====
-- A model of jaim, a sandbox for command-line programs on macOS, and what makes its parts correct.
--
-- jaim reads options from the command line and from configuration files (`Options`), decides from
-- them what a sandboxed program may see (`Config`), writes a Seatbelt profile for the kernel
-- (`Sandbox`), and in casual mode puts jaim-overlay between the program and the user's home
-- directory (`Overlay`): reads fall through to the directory, writes go to a layer of their own.
-- `Fs` has the patterns and paths that the others use. `exec` prepares the directories, the overlay
-- and the profile (`Sandbox/Launch`), forks the child that confines itself and becomes the program
-- (`Sandbox/Child`), waits for it (`Sandbox/Wait`) and sweeps what it has made (`Launch/Sweep`).
--
-- Files and sources:
--   Prelude            Boolean tests, lists over native numbers, texts as lists of bytes, results
--   Fs/Glob            fs.cc: glob
--   Fs/Paths           fs.h: cat, components, contains, PathLess
--   Fs/Maps            fs.h: PathMap and PathSet
--   Fs/Ensure          fs.cc: ensure_file
--   Config/Expand      jaim.h: var_expand
--   Config/Environment jaim.cc: --unsetenv, --setenv, make_env; jaim.h: env_lookup, expand
--   Config/Grants      jaim.cc: the options that grant, mask and name
--   Config/Files       jaim.cc: parse_config_fd, parse_config_file, --conf
--   Sandbox/Escape     jaim.cc: sbpl_escape, sbpl_regex_escape, the quotes of a regular expression
--   Sandbox/Rules      jaim.cc: the rules of the profile, their text, what they allow, and a reader
--                      of that text
--   Sandbox/Static     jaim.cc: the part of the profile that is the same for every sandbox
--   Sandbox/Profile    jaim.cc: generate_sandbox_profile
--   Sandbox/Launch     jaim.cc: exec before it forks, and atexit_fn
--   Sandbox/Script     jaim.cc: make_script
--   Sandbox/Child      jaim.cc: the child that exec forks
--   Sandbox/Helper     jaim.cc: find_overlay_helper
--   Sandbox/Teardown   jaim.cc: teardown
--   Sandbox/Wait       jaim.cc: propagate_termination_status, and the loop of exec that waits
--   Options/Action     options.h: Action, ActionImpl, the map of actions
--   Options/Scan       options.cc: scan_arg; options.h: scan_args
--   Options/Parse      options.h: parse_argspan
--   Options/File       options.cc: parse_file
--   Options/Complete   options.cc: complete_args
--   Overlay/Posix      what overlay.cc calls of the system, an interface with documented laws
--   Overlay/Resolve    overlay.cc: resolve
--   Overlay/Monad      the state that an operation passes on, and failures as values
--   Overlay/Whiteout   overlay.cc: ensure_upper_parents, clear_whiteout, place_whiteout
--   Overlay/CopyUp     overlay.cc: copy_regular, copy_symlink, copy_up
--   Overlay/Read       overlay.cc: op_getattr, op_access, op_readlink, op_readdir and attributes
--   Overlay/Change     overlay.cc: the operations that change the mount
--   Overlay/Session    sequences of requests to the operations
--   Overlay/Start      overlay.cc: extract_args and main up to the mount
--   Overlay/Disk       a small file system that obeys the interface's laws
--   Credentials        cred.cc: the changes of a process's ids; cred.h: DbEnt::find
--   Credentials/System what cred.cc calls of the system, with what is documented of it
--   Acl                acl.cc: entries that are added and removed, and the walk of a tree
--   Acl/System         what acl.cc calls of the system, and the tree that it walks
--   Setup              setup_user.cc: setup_jaim_user, remove_jaim_user
--   Setup/System       the directory of users and the program dscl, as parameters
-- The modules below these hold the theorems, and the Tests modules runs on concrete inputs.
--
-- Conventions. A `std::string` is a list of bytes and an index into it is what is left of it. A path
-- of the overlay is the list of its components. An exception is an error value; what C++ leaves
-- undefined (`std::unreachable()`, a call through a null action) is an error value of its own, which
-- is proved never to occur. A set of options is a state that the registered actions change.
--
-- Fuel. `var_expand`, `scan_args` and `parse_file` recurse on the length of their input, of which
-- each round takes at least one byte or argument; `temp_loop` on the source's 100 attempts; `digits`
-- on the 20 digits that a 64-bit number has at most; `find_loop` on the doublings of a buffer, of
-- which it needs no more than take it to the size that the system asks for; `sweep` on the length
-- of the list that it shortens; `parse_config_fd` on the files that are not being read yet;
-- `write_loop` of ensure_file on the text that is left; `poll` and `await_helper` of exec on the
-- source's 100 and 20 attempts.
--
-- Not modelled: descriptors of open files and the calls on them, times but those that a copy keeps,
-- sizes of buffers that the system checks, concurrency of the file system daemon, paths with empty
-- components, and jaim-overlay as a process of its own.
-- The help texts, complete.cc, the order of do_main and the files that default_conf.cc holds print or
-- only call what is modelled. `ensure_dir`, `read_file`, `setup_setuid` and the handles of descriptors
-- wrap calls of the system; where exec uses them they are operations of its interface.
pub mod Prelude
pub mod Fs
pub mod Config
pub mod Sandbox
pub mod Options
pub mod Overlay
pub mod Acl
pub mod Credentials
pub mod Setup
