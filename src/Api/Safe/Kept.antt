-- ===== src/Api/Safe/Kept.antt =====
-- A configuration file that can be loaded, with an administrator in it, over the steps that the
-- handlers share (internal/api/server.go).
use zeroone.Prelude.{
  ◌≡◌, refl, inl, inr, String, Bool, true, false, Option, none, some, List, Bool-cases,
  if◌then◌else◌,
}
use zeroone.Prelude.Int.{ℤ, pos}
use zeroone.Stack.{Config, Admin}
use zeroone.Stack.Mutate.Outcome.{Outcome, update_first}
use zeroone.Stack.Mutate.Admins.{has_name}
use zeroone.Stack.Session.Names.{IsStaffed, update_first-usernames, same_names_someone}
use zeroone.Api.Store.{Server, Reply, is_valid, with_cfg, load, save_config}
use zeroone.Api.Handlers.{settle, saved, commit, in_memory, from_disk}

abbrev pub Staffed : Config → Type 0
Staffed c = IsStaffed c.panel.admins

abbrev pub Kept : (Config → Outcome) → Type 0
Kept f = (c : Config) → Staffed c → Staffed (f c).0

pub update-Staffed :
    (name : String) (f : Admin → Admin) (as' bs : List Admin)
    → ((a : Admin) → (f a).username ≡ a.username)
    → update_first (has_name name) f as' ≡ some bs
    → IsStaffed as'
    → IsStaffed bs
update-Staffed name f as' bs same found st =
    let names = update_first-usernames name f as' same found in
    record { unique = rw names st.unique; someone = same_names_someone as' bs names st.someone }

module _ (is_cidr : String → Bool) where
  -- The file has a configuration that `Validate` accepts and that has an administrator, and so has
  -- the configuration in memory.
  pub record IsSafe (s : Server) : Type 0 where
    pub file : Config
    pub written : s.disk ≡ some file
    pub valid : is_valid is_cidr file ≡ true
    pub file_staffed : Staffed file
    pub memory_staffed : Staffed s.cfg

  pub with_cfg-Safe : (s : Server) (c : Config) → Staffed c → IsSafe s → IsSafe (with_cfg s c)
  with_cfg-Safe s c st h = record {
    file = h.file;
    written = h.written;
    valid = h.valid;
    file_staffed = h.file_staffed;
    memory_staffed = st;
  }

  pub load-Safe : (s : Server) (h : IsSafe s) → load is_cidr s ≡ some h.file
  unfolding load
  load-Safe s h = rw (h.written, load, h.valid)

  pub save-Safe :
      (s : Server) (c : Config) → Staffed c → IsSafe s → IsSafe (save_config is_cidr s c).0
  unfolding save_config
  save-Safe s c st h = elim (Bool-cases (is_valid is_cidr c)) [
    | inl ok ↦
        rw (ok, save_config)
          (record {
            file = c;
            written = refl;
            valid = ok;
            file_staffed = st;
            memory_staffed = h.memory_staffed;
          })
    | inr bad ↦ rw (bad, save_config) h
  ]

  pub saved-Safe :
      (answer : Server × Bool) (code : ℤ) (good : Server → Server × Reply)
      → IsSafe answer.0
      → ((t : Server) → IsSafe t → IsSafe (good t).0)
      → IsSafe (saved answer code good).0
  saved-Safe (t, false) code good h k = h
  saved-Safe (t, true) code good h k = k t h

  pub settle-Safe :
      (o : Outcome) (bad good : Config → Server × Reply)
      → Staffed o.0
      → ((c : Config) → Staffed c → IsSafe (bad c).0)
      → ((c : Config) → Staffed c → IsSafe (good c).0)
      → IsSafe (settle o bad good).0
  settle-Safe (c, some e) bad good st b g = b c st
  settle-Safe (c, none) bad good st b g = g c st

  pub if-Safe :
      (b : Bool) (x y : Server × Reply) → IsSafe x.0 → IsSafe y.0 → IsSafe (if b then x else y).0
  if-Safe true x y h k = h
  if-Safe false x y h k = k

  pub option-Safe :
      {A : Type 0} (o : Option A) (x : Server × Reply) (f : A → Server × Reply)
      → IsSafe x.0
      → ((a : A) → IsSafe (f a).0)
      → IsSafe (elim o as (λ p. Server × Reply) [ none ↦ x | some a ↦ f a ]).0
  option-Safe none x f h k = h
  option-Safe (some a) x f h k = k a

  pub commit-Safe : (s : Server) → IsSafe s → IsSafe (commit is_cidr s).0
  unfolding commit
  commit-Safe s h =
      saved-Safe (save_config is_cidr s s.cfg) (pos 400) _ (save-Safe s s.cfg h.memory_staffed h)
        (λ t k. k)

  pub in_memory-Safe :
      (f : Config → Outcome) (code : ℤ) (s : Server)
      → Kept f
      → IsSafe s
      → IsSafe (in_memory is_cidr f code s).0
  unfolding in_memory
  in_memory-Safe f code s kept h =
      settle-Safe (f s.cfg) _ _ (kept s.cfg h.memory_staffed) (λ c st. with_cfg-Safe s c st h)
        (λ c st. commit-Safe (with_cfg s c) (with_cfg-Safe s c st h))

  pub from_disk-Safe :
      (f : Config → Outcome) (s : Server) → Kept f → IsSafe s → IsSafe (from_disk is_cidr f s).0
  unfolding from_disk
  from_disk-Safe f s kept h =
      rw (load-Safe s h, from_disk)
        (settle-Safe (f h.file) _ _ (kept h.file h.file_staffed) (λ c st. h)
          (λ c st.
            saved-Safe (save_config is_cidr s c) (pos 400) _ (save-Safe s c st h)
              (λ t k. with_cfg-Safe t c st k)))
