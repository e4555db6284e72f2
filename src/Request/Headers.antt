-- ===== src/Request/Headers.antt =====
-- Which headers of the user's reach the server.
use ezsockets.Base.{
  Bool-cases, Option, [], arith, false, inl, inr, refl, some, subst, sym, true, ◌∙◌, ◌∷◌, ◌≡◌,
}
use ezsockets.Client.{ClientConfig}
use ezsockets.Request.{
  HeaderMap, Request, connect_http_request, fixed_headers, get_header, header, insert_all,
  insert_header, name_eq,
}
use ezsockets.Request.Handshake.{Lacks, get-insert_all, name_eq_sound}
use ezsockets.Socket.Message.{Bytes}
use ezsockets.Upgrade.{HeaderName, get}

-- No name stands twice in the map.
abbrev pub IsDistinct : HeaderMap → Type 0
IsDistinct [] = Unit {0}
IsDistinct ((n, value) ∷ rest) = Lacks n rest × IsDistinct rest

name_eq_refl : (n : HeaderName) → name_eq n n ≡ true
unfolding name_eq
name_eq_refl n = ground arith

get-insert_same :
    (name : HeaderName) (value : Bytes) (headers : HeaderMap)
    → get_header (insert_header name value headers) name ≡ some value
unfolding get_header insert_header
get-insert_same name value [] = ground (arith, name_eq_refl name)
get-insert_same name value ((n, v) ∷ rest) =
    ground (arith, name_eq_refl name, get-insert_same name value rest)

insert_header-Lacks :
    (m name : HeaderName) (value : Bytes) (headers : HeaderMap)
    → name_eq name m ≡ false
    → Lacks m headers
    → Lacks m (insert_header name value headers)
unfolding insert_header
insert_header-Lacks m name value [] h l = (h, tt)
insert_header-Lacks m name value ((n, v) ∷ rest) h l = elim (Bool-cases (name_eq n name)) [
  | inl e ↦ rw e (h, l.1)
  | inr e ↦ rw e (l.0, insert_header-Lacks m name value rest h l.1)
]

name_eq_other : (m n : HeaderName) → name_eq n m ≡ false → name_eq m n ≡ false
unfolding name_eq
name_eq_other m n h = ground arith

-- Inserting a header keeps the names distinct.
insert_header-IsDistinct :
    (name : HeaderName) (value : Bytes) (headers : HeaderMap)
    → IsDistinct headers
    → IsDistinct (insert_header name value headers)
unfolding insert_header
insert_header-IsDistinct name value [] d = (tt, tt)
insert_header-IsDistinct name value ((n, v) ∷ rest) d = elim (Bool-cases (name_eq n name)) [
  | inl e ↦ rw e (subst (λ m. Lacks m rest) (name_eq_sound n name e) d.0, d.1)
  | inr e ↦ rw e (
    insert_header-Lacks n name value rest (name_eq_other name n e) d.0,
    insert_header-IsDistinct name value rest d.1,
  )
]

insert_all-last :
    (name : HeaderName) (value : Bytes) (headers fixed : HeaderMap)
    → IsDistinct headers
    → get_header headers name ≡ some value
    → get_header (insert_all headers fixed) name ≡ some value
unfolding insert_all get_header
insert_all-last name value [] fixed d h = absurd (ground arith)
insert_all-last name value ((n, v) ∷ rest) fixed d h = elim (Bool-cases (name_eq n name)) [
  | inl e ↦
      let same = name_eq_sound n name e in
      let w : some v ≡ some value = ground arith in
      subst (λ m. get_header (insert_all rest (insert_header m v fixed)) name ≡ some value)
        (sym same)
        (get-insert_all name rest (insert_header name v fixed) (subst (λ m. Lacks m rest) same d.0)
          ∙ get-insert_same name v fixed
          ∙ w)
  | inr e ↦ insert_all-last name value rest (insert_header n v fixed) d.1 (ground arith)
]

module _ {U : Type 0} (as_str : U → Option Bytes) (host_of : U → Option Bytes) where
  -- A header that the user adds is the one that the server gets, whatever the config held under its
  -- name, and also if it is a header of the handshake, which it then replaces; the config keeps its
  -- names distinct. This holds whenever the URL is a URI with a host.
  pub header-connect_http_request :
      (config : ClientConfig U HeaderMap) (name : HeaderName) (value address host_name key : Bytes)
      → IsDistinct config.headers
      → as_str config.url ≡ some address
      → host_of config.url ≡ some host_name
      → (config' : ClientConfig U HeaderMap) × (header (some name) (some value) config
          ≡ some config')
        × IsDistinct config'.headers
        × ((req : Request) × (connect_http_request as_str host_of key config' ≡ some req)
            × (get_header req.request_headers name ≡ some value))
  unfolding header connect_http_request
  header-connect_http_request config name value address host_name key d a h =
      let headers = insert_header name value config.headers in
      let distinct = insert_header-IsDistinct name value config.headers d in
      let req : Request = record {
        uri = address;
        request_method = get;
        request_headers = insert_all headers (fixed_headers host_name key);
      } in
      (
        record config { headers = headers },
        refl,
        distinct,
        (
          req,
          ground (arith, a, h),
          insert_all-last name value headers (fixed_headers host_name key) distinct
              (get-insert_same name value config.headers),
        ),
      )
