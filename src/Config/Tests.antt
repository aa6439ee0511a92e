-- ===== src/Config/Tests.antt =====
-- The theorem on the configuration check at a small file and two of the requirements' kinds.
use koti.Base.{List, [], ◌∷◌}
use koti.Base.Text.{Text, codes}
use koti.Config.Meets.{Meets}

abbrev config_lines : List Text
config_lines = codes "CONFIG_MMU=y" ∷ codes "# CONFIG_SMP is not set" ∷ []
