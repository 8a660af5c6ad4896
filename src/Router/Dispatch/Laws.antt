-- ===== src/Router/Dispatch/Laws.antt =====
-- A request from the bytes of its packet to the service, and back.
use cipster.Base.{ℕ, ◌≡◌, List}
use cipster.Bytes.Writer.{Writer}
use cipster.Epath.AppPath.{AppPath}
use cipster.Cpf.{null_address, unconnected_data_item, Cpf}
use cipster.Router.Request.{Request}

-- What the receiver of an unconnected request looks at.
record IsUnconnected (c : Cpf) (bs : List ℕ) : Type 0 where
  null : c.address_item.type_id ≡ null_address
  unconnected : c.data_item.type_id ≡ unconnected_data_item
  carried : c.data_item.bytes ≡ bs
