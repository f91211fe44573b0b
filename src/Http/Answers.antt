-- ===== src/Http/Answers.antt =====
-- The JSON answers: SendMessage and SendError of pkg/plugins/httpserver/util/Common.go, and
-- noRouteResponse of pkg/plugins/proxy/http.go. `gin.H` is a map of fields; how gin prints it is not
-- followed, so the field `data` is of any type.
use rpc_pigeon.Common.{
  ◌≡◌, refl, ℕ, ℤ, pos, negsuc, ltb_ℤ, [], ◌∷◌, Option, none, some, if◌then◌else◌,
}
use rpc_pigeon.Common.Text.{Text, codes}
use rpc_pigeon.Common.Dict.{Dict}

abbrev pub current_page : ℤ
current_page = pos 1

abbrev pub page_size : ℤ
page_size = pos 1

abbrev pub job_close : ℤ
job_close = pos 1

abbrev pub job_on : ℤ
job_on = pos 2

pub record Pagination : Type 0 where
  pub page_size : ℤ
  pub current_page : ℤ
  pub total_rows : ℤ
  pub total_pages : ℤ
  pub pre_current_page : ℤ
  pub next_current_page : ℤ

-- `err` is what `Err.Error()` gives, if there is an error.
pub record Message (D : Type 0) : Type 0 where
  pub code : ℤ
  pub err : Option Text
  pub message : Text
  pub data_field : D
  pub page : Pagination

-- A value of `gin.H`.
pub data Json (D : Type 0) : Type 0 where
  number : ℤ → Json D
  string : Text → Json D
  any : D → Json D
  paging : Pagination → Json D

-- `c.JSON(status, fields)`
pub record Answer (D : Type 0) : Type 0 where
  pub status : ℕ
  pub fields : Dict (Json D)

module _ {D : Type 0} where
  unfoldable pub send_message : Message D → Answer D
  send_message msg = elim msg.err [
    | some e ↦ record {
      status = 200;
      fields = (codes "code", number msg.code) ∷ (codes "message", string e) ∷ [];
    }
    | none ↦
        if ltb_ℤ (pos 0) msg.page.total_rows
        then record {
          status = 200;
          fields =
              (codes "code", number msg.code)
              ∷ (codes "message", string msg.message)
              ∷ (codes "data", any msg.data_field)
              ∷ (codes "page", paging msg.page)
              ∷ [];
        }
        else record {
          status = 200;
          fields =
              (codes "code", number msg.code)
              ∷ (codes "message", string msg.message)
              ∷ (codes "data", any msg.data_field)
              ∷ [];
        }
  ]

  unfoldable pub send_error : Text → Answer D
  send_error msg = record {
    status = 200;
    fields = (codes "code", number (negsuc 0)) ∷ (codes "message", string msg) ∷ [];
  }

  unfoldable pub no_route_response : Answer D
  no_route_response = record {
    status = 404;
    fields =
        (codes "code", number (pos 404))
        ∷ (codes "error", string (codes "oops, page not exists!"))
        ∷ [];
  }

  -- An error is answered by SendMessage as by SendError, with the code of the message in place of -1, and
  -- whatever else the message has.
  send_message-err :
      (msg : Message D) (e : Text)
      → msg.err ≡ some e
      → msg.code ≡ negsuc 0
      → send_message msg ≡ send_error e
  unfolding send_message send_error
  send_message-err msg e is code = rw (is, code) refl
