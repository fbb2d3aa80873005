-- ===== src/FileName/Tests.antt =====
-- File names made safe.
use downpeed_fluter.Base.{subst, ◌≡◌, refl, text, Text-discrete}
use downpeed_fluter.Strings.{trim_space}
use downpeed_fluter.FileName.{safe_file_name}
use downpeed_fluter.FileName.Safe.{IsSafe, safe_file_name-IsSafe, safe_file_name_kept}

safe_file_name-IsSafe_example : IsSafe (safe_file_name (text "../con.txt"))
safe_file_name-IsSafe_example = safe_file_name-IsSafe (text "../con.txt")

separator : safe_file_name (text "../con.txt") ≡ text "_con.txt"
unfolding safe_file_name Text-discrete
separator = refl

reserved : safe_file_name (text "com7.log") ≡ text "_com7.log"
unfolding safe_file_name Text-discrete
reserved = refl

-- The name that Create keeps is not the one that it gives when made safe again.
not_kept : safe_file_name (text ". a") ≡ text " a"
unfolding safe_file_name Text-discrete
not_kept = refl

not_kept_again : safe_file_name (text " a") ≡ text "a"
unfolding safe_file_name Text-discrete
not_kept_again = refl

con_IsSafe : IsSafe (text "_con.txt")
con_IsSafe = subst IsSafe separator (safe_file_name-IsSafe (text "../con.txt"))

safe_file_name_kept_example : safe_file_name (text "_con.txt") ≡ text "_con.txt"
unfolding trim_space
safe_file_name_kept_example = safe_file_name_kept (text "_con.txt") con_IsSafe refl
