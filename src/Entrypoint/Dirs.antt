-- ===== src/Entrypoint/Dirs.antt =====
-- src/entrypoint.rs: `dir_of`, on paths with and without a directory.
use dynld.Prelude.{
  ℕ, ◌≡◌, refl, ap, ◌≢◌, false, none, some, [], ◌∷◌, ◌++◌, arith, ◌==◌, length, take, All, Bytes,
}
use dynld.Loader.Dependencies.{in_dir}
use dynld.Entrypoint.{rfind_slash, dir_of}

-- No byte of the name is a slash.
abbrev pub NoSlash : Bytes → Type 0
NoSlash = All (λ (b : ℕ). b ≢ b'/')

rfind_slash-none : (name : Bytes) → NoSlash name → rfind_slash name ≡ none
unfolding rfind_slash
rfind_slash-none [] h = refl
rfind_slash-none (b ∷ bs) (away, h) =
    let other : (b == b'/') ≡ false = ground arith in rw (rfind_slash-none bs h, other) refl

rfind_slash-last :
    (dir name : Bytes) → NoSlash name → rfind_slash (dir ++ (b'/' ∷ name)) ≡ some (length dir)
unfolding rfind_slash
rfind_slash-last [] name h = rw (rfind_slash-none name h) refl
rfind_slash-last (b ∷ dir) name h = rw (rfind_slash-last dir name h) refl

take-front : (dir rest : Bytes) → take (length dir) (dir ++ rest) ≡ dir
take-front [] rest = refl
take-front (b ∷ dir) rest = ap (λ t. b ∷ t) (take-front dir rest)

-- A directory that is written as nothing is the root.
abbrev pub or_root : Bytes → Bytes
or_root [] = b'/' ∷ []
or_root (b ∷ dir) = b ∷ dir

dir_of-some : (dir name : Bytes) → NoSlash name → dir_of (in_dir dir name) ≡ or_root dir
unfolding dir_of
dir_of-some [] name h = rw (dir_of, rfind_slash-last [] name h) refl
dir_of-some (b ∷ bs) name h =
    rw (dir_of, rfind_slash-last (b ∷ bs) name h) (take-front (b ∷ bs) (b'/' ∷ name))

-- The directory of a path: for a name without a slash it is the current directory, and for a name in a
-- directory, as the loader writes such a path, it is that directory, or the root where that is empty.
pub dir_of-in_dir :
    (dir name : Bytes)
    → NoSlash name
    → (dir_of name ≡ b'.' ∷ []) × (dir_of (in_dir dir name) ≡ or_root dir)
unfolding dir_of
dir_of-in_dir dir name h = (rw (dir_of, rfind_slash-none name h) refl, dir_of-some dir name h)
