-- ===== src/Process/Packing.antt =====
-- internal/pack into a temporary file, as cmd/krate and internal/crawler call it.
use agentreg.Base.{Text, bytes, some, driver}
use agentreg.Pack.Extract.{call}
use agentreg.Pack.Extract
use agentreg.Pack.Dir.{Archiver, dir_archive}
use agentreg.Program.{done, stop, or_stop, reads, modify, ◌>>=◌}
use agentreg.Process.{C, on_disk}

-- pack.Dir into the temporary file, which takes the archive's bytes; its checksum is the result.
unfoldable pub pack_temp : Archiver → Text → C Text
unfolding on_disk call dir_archive Extract.◌>>=◌ ◌>>=◌ modify done
pack_temp a dir = do
  (archive, sum) ← on_disk (dir_archive a (call λ d. d) (λ b. call λ d. d) dir)
  _ ← modify (λ c. record c { temp = some archive })
  done sum

-- os.Open of the temporary file, and the content that the request sends.
unfoldable pub open_temp : C Text
unfolding on_disk call ◌>>=◌ reads stop done
open_temp = do
  _ ← on_disk (call λ d. d)
  content ← reads (λ c. c.temp)
  or_stop (driver (bytes "no such file")) content
