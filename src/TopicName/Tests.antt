-- ===== src/TopicName/Tests.antt =====
-- Topic names on concrete texts, and the round trips there.
use Prim.Native.String.{String}
use pulsar_client_cpp.Prelude.{◌≡◌, refl, some, arith}
use pulsar_client_cpp.Prelude.Text.{codes}
use pulsar_client_cpp.TopicName.{Bytes, parse, to_string, get_partition_index, full_name}
use pulsar_client_cpp.TopicName.RoundTrip.{v2, parse-to_string-v2}

abbrev text : String → Bytes
text s = codes s

partition_of_topic : get_partition_index (text "orders-partition-12") ≡ some 12
unfolding get_partition_index
partition_of_topic = refl

short_name : full_name (text "orders") ≡ some (text "persistent://public/default/orders")
unfolding full_name
short_name = refl

parse-to_string-v2_example :
    parse (to_string (v2 (text "persistent") (text "public") (text "default") (text "t")))
    ≡ v2 (text "persistent") (text "public") (text "default") (text "t")
parse-to_string-v2_example =
    parse-to_string-v2 (text "persistent") (text "public") (text "default") (text "t")
      (ground arith) (ground arith) (ground arith) (ground arith) (ground arith)
