-- ===== src/Sandbox/Static.antt =====
-- The parts of the profile that are the same for every sandbox, by `generate_sandbox_profile` of
-- jaim.cc.
use jaim.Prelude.{◌++◌, List, [], ◌∷◌, Text, codes}
use jaim.Sandbox.Rules.{
  file_read, file_all, Filter, subpath, literal, regex, allow, allow_any, Item, plain, rule,
}

-- Process operations, signals and sysctl.
unfoldable pub process_text : Text
process_text =
    codes "(version 1)\n"
    ++ codes "(deny default)\n\n"
    ++ codes "(allow process-exec*)\n"
    ++ codes "(allow process-fork)\n"
    ++ codes "(allow process-info-pidinfo (target self))\n"
    ++ codes "(allow process-info-pidfdinfo (target self))\n"
    ++ codes "(allow process-info-codesignature)\n"
    ++ codes "(deny process-info-listpids)\n"
    ++ codes "(deny process-info-pidinfo)\n"
    ++ codes "(deny process-info-pidfdinfo)\n"
    ++ codes "(allow signal (target self))\n"
    ++ codes "(allow sysctl-read)\n\n"

-- The Mach operations and the services that may be looked up.
unfoldable pub mach_text : Text
mach_text =
    codes "(allow mach-bootstrap)\n"
    ++ codes "(allow mach-register (local-name-prefix \"\"))\n"
    ++ codes "(allow mach-task-name (target self))\n"
    ++ codes "(allow mach-lookup (xpc-service-name-prefix \"\"))\n"
    ++ codes "(allow mach-lookup\n"
    ++ codes "  (global-name \"com.apple.analyticsd\")\n"
    ++ codes "  (global-name \"com.apple.analyticsd.messagetracer\")\n"
    ++ codes "  (global-name \"com.apple.appsleep\")\n"
    ++ codes "  (global-name \"com.apple.bsd.dirhelper\")\n"
    ++ codes "  (global-name \"com.apple.cfprefsd.agent\")\n"
    ++ codes "  (global-name \"com.apple.cfprefsd.daemon\")\n"
    ++ codes "  (global-name \"com.apple.coreservices.launchservicesd\")\n"
    ++ codes "  (global-name \"com.apple.diagnosticd\")\n"
    ++ codes "  (global-name \"com.apple.distributed_notifications@1v3\")\n"
    ++ codes "  (global-name \"com.apple.distributed_notifications@Uv3\")\n"
    ++ codes "  (global-name \"com.apple.logd\")\n"
    ++ codes "  (global-name \"com.apple.logd.events\")\n"
    ++ codes "  (global-name \"com.apple.ocspd\")\n"
    ++ codes "  (global-name \"com.apple.runningboard\")\n"
    ++ codes "  (global-name \"com.apple.secinitd\")\n"
    ++ codes "  (global-name \"com.apple.SecurityServer\")\n"
    ++ codes "  (global-name \"com.apple.system.DirectoryService.libinfo_v1\")\n"
    ++ codes "  (global-name \"com.apple.system.logger\")\n"
    ++ codes "  (global-name \"com.apple.system.notification_center\")\n"
    ++ codes "  (global-name \"com.apple.system.opendirectoryd.api\")\n"
    ++ codes "  (global-name \"com.apple.system.opendirectoryd.libinfo\")\n"
    ++ codes "  (global-name \"com.apple.system.opendirectoryd.membership\")\n"
    ++ codes "  (global-name \"com.apple.trustd\")\n"
    ++ codes "  (global-name \"com.apple.trustd.agent\")\n"
    ++ codes "  (global-name \"com.apple.xpc.activity.unmanaged\"))\n\n"

-- POSIX shared memory and semaphores, IOKit, the network and pseudo-terminals.
unfoldable pub ipc_text : Text
ipc_text =
    codes "(allow ipc-posix-shm*\n"
    ++ codes "  (ipc-posix-name-prefix \"apple.shm.\")\n"
    ++ codes "  (ipc-posix-name-prefix \"com.apple.\"))\n"
    ++ codes "(allow ipc-posix-sem\n"
    ++ codes "  (ipc-posix-name-prefix \"apple.shm.\")\n"
    ++ codes "  (ipc-posix-name-prefix \"com.apple.\"))\n"
    ++ codes "(allow iokit*)\n\n"
    ++ codes "(allow network*)\n\n"
    ++ codes "(allow pseudo-tty)\n\n"

-- What may be read of the system.
abbrev pub system_files : List Filter
system_files =
    subpath (codes "/usr")
    ∷ subpath (codes "/bin")
    ∷ subpath (codes "/sbin")
    ∷ subpath (codes "/Library")
    ∷ subpath (codes "/System")
    ∷ subpath (codes "/etc")
    ∷ subpath (codes "/private/etc")
    ∷ subpath (codes "/private/var")
    ∷ subpath (codes "/dev")
    ∷ subpath (codes "/opt/homebrew")
    ∷ subpath (codes "/Applications")
    ∷ subpath (codes "/nix")
    ∷ literal (codes "/")
    ∷ literal (codes "/private")
    ∷ literal (codes "/tmp")
    ∷ literal (codes "/var")
    ∷ []

-- The devices that may be written.
abbrev pub device_files : List Filter
device_files =
    literal (codes "/dev/null")
    ∷ literal (codes "/dev/tty")
    ∷ regex (codes "^/dev/ttys[0-9]+$")
    ∷ literal (codes "/dev/ptmx")
    ∷ []

unfoldable pub device_items : List Filter → List Item
device_items [] = []
device_items (f ∷ fs) = rule (allow file_all f) ∷ device_items fs

unfoldable pub static_items : List Item
static_items =
    plain process_text
      ∷ plain mach_text
      ∷ plain ipc_text
      ∷ rule (allow_any file_read system_files)
      ∷ plain (codes "\n")
      ∷ device_items device_files
    ++ plain (codes "\n") ∷ []
