-- ===== src/Daemon/Main/Names.antt =====
-- daemon/main.cpp: the names of the flags.
use chowdy.Base.{
  ℕ, ◌≡◌, refl, ap, sym, ◌∙◌, arith, Bool, true, false, Str, codes, nat_eq, str_eq, str_eq_iff,
  Bool-cases, inl, inr, ◌==◌, Str-Eq,
}
use chowdy.Daemon.Main.{
  TextFlag, auth_socket, mgmt_socket, users_dir, detector, embedder, device, camera_policy, Flag,
  text, foreground, flag_of,
}

abbrev index : TextFlag → ℕ
index auth_socket = 0
index mgmt_socket = 1
index users_dir = 2
index detector = 3
index embedder = 4
index device = 5
index camera_policy = 6

abbrev pub same : TextFlag → TextFlag → Bool
same f g = nat_eq (index f) (index g)

-- The flag's name on the command line.
abbrev pub name_of : TextFlag → Str
name_of auth_socket = codes "--auth-socket"
name_of mgmt_socket = codes "--mgmt-socket"
name_of users_dir = codes "--users-dir"
name_of detector = codes "--detector"
name_of embedder = codes "--embedder"
name_of device = codes "--device"
name_of camera_policy = codes "--camera-policy"

flag_of-name_of : (f : TextFlag) → flag_of (name_of f) ≡ text f
unfolding flag_of str_eq
flag_of-name_of auth_socket = refl
flag_of-name_of mgmt_socket = refl
flag_of-name_of users_dir = refl
flag_of-name_of detector = refl
flag_of-name_of embedder = refl
flag_of-name_of device = refl
flag_of-name_of camera_policy = refl

flag_of-text : (a : Str) (f : TextFlag) → flag_of a ≡ text f → (a == name_of f) ≡ true
unfolding flag_of
flag_of-text a auth_socket h = ground (arith, h)
flag_of-text a mgmt_socket h = ground (arith, h)
flag_of-text a users_dir h = ground (arith, h)
flag_of-text a detector h = ground (arith, h)
flag_of-text a embedder h = ground (arith, h)
flag_of-text a device h = ground (arith, h)
flag_of-text a camera_policy h = ground (arith, h)

pub flag_of-foreground : (a : Str) → flag_of a ≡ foreground → (a == codes "--foreground") ≡ true
unfolding flag_of
flag_of-foreground a h = ground (arith, h)

foreground_name : flag_of (codes "--foreground") ≡ foreground
unfolding flag_of str_eq
foreground_name = refl

pub other_flag :
    (a : Str) (g : Flag) → flag_of a ≡ g → ¬ (g ≡ foreground) → (a == codes "--foreground") ≡ false
other_flag a g h other = elim (Bool-cases (a == codes "--foreground")) [
  | inr differs ↦ differs
  | inl is ↦
      absurd (
        other (sym h ∙ (ap flag_of ((str_eq_iff a (codes "--foreground")).0 is) ∙ foreground_name)))
]

-- An argument that is not the flag's does not count for it.
pub other_name :
    (a : Str) (f : TextFlag) (g : Flag) → flag_of a ≡ g → ¬ (g ≡ text f) → (a == name_of f) ≡ false
other_name a f g h other = elim (Bool-cases (a == name_of f)) [
  | inr differs ↦ differs
  | inl is ↦
      absurd (other (sym h ∙ (ap flag_of ((str_eq_iff a (name_of f)).0 is) ∙ flag_of-name_of f)))
]

text-index : (f g : TextFlag) → text g ≡ text f → same f g ≡ true
text-index f g e = ground (arith, e)

same-equal : (f g : TextFlag) → same f g ≡ true → f ≡ g
same-equal f g e = ground (arith, e)

pub name_same : (a : Str) (f g : TextFlag) → flag_of a ≡ text g → (a == name_of f) ≡ same f g
name_same a f g h = elim (Bool-cases (same f g)) [
  | inl is ↦ flag_of-text a f (h ∙ ap (λ (k : TextFlag). text k) (sym (same-equal f g is))) ∙ sym is
  | inr differs ↦ other_name a f (text g) h (λ e. cc (text-index f g e, differs)) ∙ sym differs
]
