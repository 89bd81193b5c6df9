-- ===== src/HttpParser/RoundTrip.antt =====
-- Parsing a printed request (http_request_parse in http_parser/http_parser.c).
use old_tools.Common.{none, some}
use old_tools.Common.Run.{Run}
use old_tools.HttpParser.{Request, parse_data}
use old_tools.HttpParser.Message.{Message}

-- The request that the parser makes of a printed message
unfoldable pub parsed : Message → Request
parsed msg =
    parse_data
      (record {
        method_string = some msg.method;
        path_string = some msg.path;
        query_string = msg.query;
        version_string = some msg.version;
        head = msg.head;
        data_string = none;
      })
      msg.body
