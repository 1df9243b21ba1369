-- ===== src/Fs/Path/Tests.antt =====
-- Names in short paths.
use orcas.Base.{◌≡◌, refl, some, [], ◌∷◌, arith, inr}
use orcas.Util.{Memory, put}
use orcas.Fs.Path.{name_end, get_next_dir, get_file_name, get_file_name-empty}

next_dir :
    get_next_dir 9 10 (put 10 b'/' (put 11 b'a' (put 12 b'/' (λ _. b'b'))))
    ≡ some (11, put 12 0 (put 10 b'/' (put 11 b'a' (put 12 b'/' (λ _. b'b')))))
unfolding get_next_dir name_end
next_dir = refl

-- "/a" at 10
abbrev short_path : Memory
short_path = put 10 b'/' (put 11 b'a' (put 12 0 (λ _. b'b')))

get_file_name-empty_test : get_file_name 3 10 50 short_path ≡ some (10, put 50 0 short_path)
get_file_name-empty_test =
    get_file_name-empty 3 10 50 short_path (b'/' ∷ b'a' ∷ []) (omega arith)
      (refl, (λ e. absurd (omega (arith, e))), (refl, (λ e. absurd (omega (arith, e))), refl))
      (inr (omega arith))
