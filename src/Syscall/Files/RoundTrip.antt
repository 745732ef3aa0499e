-- ===== src/Syscall/Files/RoundTrip.antt =====
-- Open and then Close of what it answered.
use cs107_nach_os.Host.{Host}
use cs107_nach_os.Host.OpenFile.{OpenFile}
use cs107_nach_os.Host.FileSystem.{FileSystem}
