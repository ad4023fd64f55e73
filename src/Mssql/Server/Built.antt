-- ===== src/Mssql/Server/Built.antt =====
-- What a connector that `build_connector` builds was built from.
use text.Mathlib.Text.{◌==◌ as str_eq}
use text.Mathlib.TextEquality.{eq_iff}
use pydblog.Prelude.{
  ℕ, zero, suc, String, ◌≡◌, ◌↔◌, refl, sym, ap, Option, none, some, true, ◌||◌, ◌⊎◌, inl, inr,
  Bool-cases,
}
use pydblog.Exec.{Result, ok, err, source_undefined, err_ne_ok, and_then-eq-ok}
use pydblog.Mssql.Session.{Settings, Keywords, get_or, settings_of, init}
use pydblog.Types.{SourceType, mssql, postgres}
use pydblog.Mssql.Server.{source_type_of, init_with, build_connector}

-- A keyword's value: the one that is given, or else the default.
abbrev pub Given : {A : Type 0} → Option A → A → A → Type 0
Given none default value = value ≡ default
Given (some given) default value = value ≡ given

-- What a connector has to hold of what it was given: the connection data, every keyword or its default
-- (the times in microseconds), and one of the two ways to page.
pub record IsBuilt (given_host given_port given_user given_password given_database : String)
    (k : Keywords) (M : Settings) : Type 0 where
  pub host : M.host ≡ given_host
  pub port : M.port ≡ given_port
  pub user : M.user ≡ given_user
  pub password : M.password ≡ given_password
  pub database : M.database ≡ given_database
  pub encrypt : Given k.encrypt "yes" M.encrypt
  pub trust_server_certificate : Given k.trust_server_certificate "yes" M.trust_server_certificate
  pub application_name : Given k.application_name "Lakehouse DBLog" M.application_name
  pub watermark_timeout : Given k.watermark_timeout 120_000_000 M.watermark_timeout
  pub watermark_poll : Given k.watermark_poll 1_000_000 M.watermark_poll
  pub pagination : Given k.pagination "fetch" M.pagination
  pub known : (M.pagination ≡ "fetch") ⊎ (M.pagination ≡ "top")

Given-get_or : {A : Type 0} (o : Option A) (d : A) → Given o d (get_or o d)
Given-get_or none d = refl
Given-get_or (some a) d = refl

get_or-Given : {A : Type 0} (o : Option A) (d v : A) → Given o d v → get_or o d ≡ v
get_or-Given none d v h = sym h
get_or-Given (some a) d v h = sym h

pagination_known :
    (p : String) → (str_eq p "fetch" || str_eq p "top") ≡ true → (p ≡ "fetch") ⊎ (p ≡ "top")
pagination_known p h = elim (Bool-cases (str_eq p "fetch")) [
  | inl fetch ↦ inl ((eq_iff p "fetch").0 fetch)
  | inr other ↦ inr ((eq_iff p "top").0 (rw other at h))
]

known_pagination :
    (p : String) → (p ≡ "fetch") ⊎ (p ≡ "top") → (str_eq p "fetch" || str_eq p "top") ≡ true
known_pagination p (inl fetch) = rw ((eq_iff p "fetch").1 fetch) refl
known_pagination p (inr top) = elim (Bool-cases (str_eq p "fetch")) [
  | inl fetch ↦ rw fetch refl
  | inr other ↦ rw (other, (eq_iff p "top").1 top) refl
]

module _ (host port user password database : String) (k : Keywords) (M : Settings) where
  settings_of-IsBuilt :
      (get_or k.pagination "fetch" ≡ "fetch") ⊎ (get_or k.pagination "fetch" ≡ "top")
      → IsBuilt host port user password database k
          (settings_of (get_or k.pagination "fetch") host user password database port k)
  settings_of-IsBuilt known = record {
    host = refl;
    port = refl;
    user = refl;
    password = refl;
    database = refl;
    encrypt = Given-get_or k.encrypt "yes";
    trust_server_certificate = Given-get_or k.trust_server_certificate "yes";
    application_name = Given-get_or k.application_name "Lakehouse DBLog";
    watermark_timeout = Given-get_or k.watermark_timeout 120_000_000;
    watermark_poll = Given-get_or k.watermark_poll 1_000_000;
    pagination = Given-get_or k.pagination "fetch";
    known = known;
  }

  IsBuilt-settings_of :
      IsBuilt host port user password database k M
      → settings_of (get_or k.pagination "fetch") host user password database port k ≡ M
  IsBuilt-settings_of b =
      rw
        (
          get_or-Given k.encrypt "yes" M.encrypt b.encrypt,
          get_or-Given k.trust_server_certificate "yes" M.trust_server_certificate
              b.trust_server_certificate,
          get_or-Given k.application_name "Lakehouse DBLog" M.application_name b.application_name,
          get_or-Given k.watermark_timeout 120_000_000 M.watermark_timeout b.watermark_timeout,
          get_or-Given k.watermark_poll 1_000_000 M.watermark_poll b.watermark_poll,
          get_or-Given k.pagination "fetch" M.pagination b.pagination,
          ← b.host,
          ← b.port,
          ← b.user,
          ← b.password,
          ← b.database,
        )
        refl

  init-iff-IsBuilt :
      (init host user password database port k ≡ ok M)
      ↔ IsBuilt host port user password database k M
  unfolding init
  init-iff-IsBuilt =
      let pagination = get_or k.pagination "fetch" in
      (
        λ e. elim (Bool-cases (str_eq pagination "fetch" || str_eq pagination "top")) [
          | inr neither ↦ absurd (err_ne_ok _ _ (rw neither at e))
          | inl known ↦
              let built : ok (settings_of pagination host user password database port k) ≡ ok M =
                rw known at e in
              let same : settings_of pagination host user password database port k ≡ M = cc in
              rw (← same) (settings_of-IsBuilt (pagination_known pagination known))
        ],
        λ b.
            let same : pagination ≡ M.pagination =
              get_or-Given k.pagination "fetch" M.pagination b.pagination in
            let known : (str_eq pagination "fetch" || str_eq pagination "top") ≡ true =
              rw same (known_pagination M.pagination b.known) in
            rw known (ap ok (IsBuilt-settings_of b)),
      )

  init_with-iff-IsBuilt :
      (count : ℕ)
      → (init_with count host user password database port k ≡ ok M)
        ↔ ((count ≡ 0) × IsBuilt host port user password database k M)
  unfolding init_with
  init_with-iff-IsBuilt zero = (λ e. (refl, init-iff-IsBuilt.0 e), λ h. init-iff-IsBuilt.1 h.1)
  init_with-iff-IsBuilt (suc count) =
      (λ e. absurd (err_ne_ok _ _ e), λ h. absurd (let some_more = h.0 in cc))

source_type_of-mssql : (name : String) → source_type_of name ≡ ok mssql → name ≡ "mssql"
unfolding source_type_of
source_type_of-mssql name e = elim (Bool-cases (str_eq name "mssql")) [
  | inl same ↦ (eq_iff name "mssql").0 same
  | inr other ↦ elim (Bool-cases (str_eq name "postgres")) [
    | inl same ↦ let clash : ok postgres ≡ ok mssql = rw (other, same) at e in absurd cc
    | inr neither ↦ absurd (err_ne_ok _ _ (rw (other, neither) at e))
  ]
]

-- `build_connector` returns a connector exactly for the source type `mssql`, where no further argument is
-- given by position and where the way to page is one of the two; the connector has the connection data
-- that was given, and of every keyword what was given or, without it, the default.
pub build_connector-iff-IsBuilt :
    (source_type host port user password database : String) (count : ℕ) (k : Keywords)
    (M : Settings)
    → (build_connector source_type host port user password database count k ≡ ok M)
      ↔ ((source_type ≡ "mssql") × (count ≡ 0) × IsBuilt host port user password database k M)
unfolding build_connector source_type_of
build_connector-iff-IsBuilt source_type host port user password database count k M = (
  λ e.
      let (t, typed, rest) = and_then-eq-ok (source_type_of source_type) _ M e in
      of_type t typed rest,
  λ h.
      let made = (init_with-iff-IsBuilt host port user password database k M count).1 (h.1, h.2) in
      rw h.0 made,
)
  where
    of_type :
        (t : SourceType)
        → source_type_of source_type ≡ ok t
        → (elim t as (λ _. Result Settings) [
          | mssql ↦ init_with count host user password database port k
          | postgres ↦ err source_undefined
        ])
          ≡ ok M
        → (source_type ≡ "mssql") × (count ≡ 0) × IsBuilt host port user password database k M
    of_type mssql typed made =
        let built = (init_with-iff-IsBuilt host port user password database k M count).0 made in
        (source_type_of-mssql source_type typed, built.0, built.1)
    of_type postgres typed made = absurd (err_ne_ok _ _ made)
