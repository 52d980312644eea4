-- ===== src/Keys/Disk.antt =====
-- The files that desktop/internal/keys/store.go reads and writes, as `os` shows them.
use toppa.Base.{
  ℕ, ◌≡◌, refl, sym, ◌∙◌, inl, inr, Bool, true, false, Option, none, some, List, [], ◌∷◌,
}
use toppa.Base.Tests.{if◌then◌else◌, Bool-cases}
use toppa.Base.Lists.{take}
use toppa.Base.Texts.{same_text, same_text_refl}
use toppa.Base.Bytes.{Bytes}
use toppa.Base.Results.{Result, ok, err, fst_eq, snd_eq}

pub data ReadError : Type 0 where
  not_exist unreadable : ReadError

-- How `os.WriteFile` ends: whole, not at all, or after a prefix, where the file was already truncated.
pub data WriteEnd : Type 0 where
  whole refused : WriteEnd
  cut : ℕ → WriteEnd

-- The files by their paths. The outcomes of calls on a path are given.
pub record Disk : Type 0 where
  pub files : List (Bytes × Bytes)
  pub readable : Bytes → Bool
  pub writes : Bytes → WriteEnd
  pub makes : Bytes → Bool

unfoldable pub look_up : Bytes → List (Bytes × Bytes) → Option Bytes
look_up path [] = none
look_up path ((p, content) ∷ rest) =
    let later = look_up path rest in if same_text p path then some content else later

unfoldable pub found : Option Bytes → Result ReadError Bytes
found none = err not_exist
found (some content) = ok content

-- `os.ReadFile`
unfoldable pub read_file : Disk → Bytes → Result ReadError Bytes
unfolding look_up found
read_file disk path = if disk.readable path then found (look_up path disk.files) else err unreadable

abbrev pub with_file : Disk → Bytes → Bytes → Disk
with_file disk path content = record disk { files = (path, content) ∷ disk.files }

abbrev pub written : WriteEnd → Disk → Bytes → Bytes → Disk × Bool
written whole disk path content = (with_file disk path content, true)
written refused disk path content = (disk, false)
written (cut n) disk path content = (with_file disk path (take n content), false)

-- `os.WriteFile`, and whether it succeeded.
unfoldable pub write_file : Disk → Bytes → Bytes → Disk × Bool
write_file disk path content = written (disk.writes path) disk path content

look_up_self :
    (path content : Bytes) (rest : List (Bytes × Bytes))
    → look_up path ((path, content) ∷ rest) ≡ some content
unfolding look_up
look_up_self path content rest = rw (same_text_refl path) refl

-- A file is not missing where it cannot be read.
pub read_file_missing :
    (disk : Disk) (path : Bytes) → read_file disk path ≡ err not_exist → disk.readable path ≡ true
unfolding read_file
read_file_missing disk path h = elim (Bool-cases (disk.readable path)) [
  | inl e ↦ e
  | inr e ↦ absurd (let q : err unreadable ≡ err not_exist = sym (if_false e) ∙ h in cc)
]
  where
    if_false :
        disk.readable path ≡ false
        → (if disk.readable path then found (look_up path disk.files) else err unreadable)
          ≡ err unreadable
    if_false e = rw e refl

pub read_file-with_file :
    (disk : Disk) (path content : Bytes)
    → disk.readable path ≡ true
    → read_file (with_file disk path content) path ≡ ok content
unfolding read_file found
read_file-with_file disk path content h = rw (h, look_up_self path content disk.files) refl

look_up_other :
    (path q content : Bytes) (rest : List (Bytes × Bytes))
    → same_text q path ≡ false
    → look_up path ((q, content) ∷ rest) ≡ look_up path rest
unfolding look_up
look_up_other path q content rest h = rw h refl

-- A write leaves the other files.
pub read_file-write_file :
    (disk : Disk) (path q content : Bytes)
    → same_text q path ≡ false
    → read_file (write_file disk q content).0 path ≡ read_file disk path
unfolding write_file read_file
read_file-write_file disk path q content h = kept (disk.writes q)
  where
    same : (c : Bytes) → read_file (with_file disk q c) path ≡ read_file disk path
    same c = rw (look_up_other path q c disk.files h) refl

    kept : (e : WriteEnd) → read_file (written e disk q content).0 path ≡ read_file disk path
    kept whole = same content
    kept refused = refl
    kept (cut n) = same (take n content)

-- A write that succeeds has put the whole content there.
pub write_file-done :
    (disk disk' : Disk) (path content : Bytes)
    → write_file disk path content ≡ (disk', true)
    → disk' ≡ with_file disk path content
unfolding write_file
write_file-done disk disk' path content = done (disk.writes path)
  where
    done :
        (e : WriteEnd)
        → written e disk path content ≡ (disk', true)
        → disk' ≡ with_file disk path content
    done whole h = sym (fst_eq h)
    done refused h = absurd (let q : false ≡ true = snd_eq h in cc)
    done (cut n) h = absurd (let q : false ≡ true = snd_eq h in cc)
