-- ===== src/Api/Upload/Cancel.antt =====
-- A cancelled upload leaves no document behind that the server was not told to remove.
use Prim.Native.String.{◌++◌ as append}
use cassist.Prelude.{String}
use cassist.Api.Json.{Json}
use cassist.Api.World.{post, Client, World, ◌>>◌, emit, staged, creating}
use cassist.Api.Mutations.{with_json, send_json}
use cassist.Api.Upload.{File, create_body}

abbrev after_check : File → Client Json
after_check f = do
  emit (staged creating)
  send_json "/uploads" (with_json post (create_body f)) "Unable to create the upload."
