-- ===== src/Linux/Found.antt =====
-- How volumeInspectByIDOrName of drivers/integration/linux/linux_utils.go finds a volume.
use libstorage.Base.{
  ℕ, ◌≡◌, refl, List, [], ◌∷◌, ◌++◌, true, false, none, some, Text, ok, All, equal_fold,
}
use libstorage.Types.Models.{Volume}
use libstorage.Linux.{Client, first_by_name, volume_inspect_by_id_or_name}

-- No volume has the name.
abbrev pub Unnamed : Text → List Volume → Type 0
Unnamed volume_name vs = All (λ v. equal_fold volume_name v.name ≡ false) vs

-- From the world `s`, the client gives a volume for an ID; or it lists volumes, of which the first with a name, but for
-- case, is given for its own ID.
pub data Found {S : Type 0} (c : Client S) (mask : ℕ) (s : S)
    : Text → Text → Volume → S → Type 0 where
  for_id :
      {b : ℕ} {volume_id : Text} {vol : Volume} {s1 : S}
      → c.volume_inspect (b ∷ volume_id) mask s ≡ (ok (some vol), s1)
      → Found c mask s (b ∷ volume_id) [] vol s1
  for_name :
      {volume_name : Text} {vol : Volume} {s1 s2 : S}
      → (before : List Volume) (v : Volume) (rest : List Volume)
      → c.volumes 0 none s ≡ (ok (before ++ v ∷ rest), s1)
      → Unnamed volume_name before
      → equal_fold volume_name v.name ≡ true
      → c.volume_inspect v.id mask s1 ≡ (ok (some vol), s2)
      → Found c mask s [] volume_name vol s2

first_by_name_lem :
    (n : Text) (before : List Volume) (v : Volume) (rest : List Volume)
    → Unnamed n before
    → equal_fold n v.name ≡ true
    → first_by_name n (before ++ v ∷ rest) ≡ some v
first_by_name_lem n [] v rest h e = rw e refl
first_by_name_lem n (u ∷ before) v rest (h, hs) e = rw h (first_by_name_lem n before v rest hs e)

pub inspect-Found :
    {S : Type 0} (c : Client S) (mask : ℕ) (s : S) (volume_id volume_name : Text) (vol : Volume)
    (s' : S)
    → Found c mask s volume_id volume_name vol s'
    → volume_inspect_by_id_or_name c volume_id volume_name mask s ≡ (ok vol, s')
unfolding volume_inspect_by_id_or_name
inspect-Found c mask s volume_id volume_name vol s' (for_id h) = rw h refl
inspect-Found c mask s volume_id volume_name vol s'
      (for_name before v rest listed unnamed named h) =
    rw (listed, first_by_name_lem volume_name before v rest unnamed named, h) refl
