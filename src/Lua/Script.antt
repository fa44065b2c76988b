-- ===== src/Lua/Script.antt =====
-- The text of the dissector that GenerateLuaOutput of tools/mavgen/mavgen.py writes as it stands.
use vsm_cpp_sdk.Prelude.{[], ◌∷◌}
use vsm_cpp_sdk.Text.{Text, lines}

-- What stands in front of the tables.
unfoldable pub script_start : Text
script_start = lines (
    "" ∷ "-- Do not edit! This file is automatically generated by mavgen.py tool."
    ∷ "-- Wireshark dissector for the MAVLink protocol"
    ∷ "-- Usage: Copy this file into your wireshark plugins directory."
    ∷ "--        Detailed instructions here: http://wiki.wireshark.org/Lua" ∷ ""
    ∷ "mavlink_proto = Proto(\"mavlink_proto\", \"MAVLink protocol\")" ∷ ""
    ∷ "f = mavlink_proto.fields"
    ∷ "f.magic = ProtoField.uint8(\"mavlink_proto.magic\", \"Magic value / version\", base.HEX)"
    ∷ "f.length = ProtoField.uint8(\"mavlink_proto.length\", \"Payload length\")"
    ∷ "f.sequence = ProtoField.uint8(\"mavlink_proto.sequence\", \"Packet sequence\")"
    ∷ "f.sysid = ProtoField.uint8(\"mavlink_proto.sysid\", \"System id\")"
    ∷ "f.compid = ProtoField.uint8(\"mavlink_proto.compid\", \"Component id\")"
    ∷ "f.msgid = ProtoField.uint24(\"mavlink_proto.msgid\", \"Message id\")"
    ∷ "f.crc = ProtoField.uint16(\"mavlink_proto.crc\", \"Message CRC\", base.HEX)"
    ∷ "f.payload = ProtoField.uint24(\"mavlink_proto.payload\", \"Payload\", base.DEC, messageName)"
    ∷ "f.rawheader = ProtoField.bytes(\"mavlink_proto.rawheader\", \"Unparsable header fragment\")"
    ∷ "f.rawpayload = ProtoField.bytes(\"mavlink_proto.rawpayload\", \"Unparsable payload\")" ∷ ""
    ∷ "local myfuncs = {}" ∷ ""
    ∷ "function addle(field, buffer, tree, base_offset, offset, size, len)"
    ∷ "    if (offset < len) then" ∷ "        if (len < offset + size) then"
    ∷ "            local b = ByteArray.new()"
    ∷ "            b:append(buffer(base_offset + offset, len - offset):bytes())"
    ∷ "            b:set_size(size)"
    ∷ "            tree:add_le(field, ByteArray.tvb(b, \"temp buf\")(0, size))" ∷ "        else"
    ∷ "            tree:add_le(field, buffer(base_offset + offset, size))" ∷ "        end"
    ∷ "    else" ∷ "        local b = ByteArray.new()" ∷ "        b:set_size(size)"
    ∷ "        tree:add_le(field, ByteArray.tvb(b, \"zero buf\")(0, size))" ∷ "    end" ∷ "end" ∷ ""
    ∷ [])

-- The dissector function up to the header of a frame.
unfoldable pub script_frames : Text
script_frames = lines (
    "" ∷ "-- dissector function" ∷ "function mavlink_proto.dissector(buffer,pinfo,tree)"
    ∷ "    local offset = 0" ∷ "    local colinfo = \"\"" ∷ "    local frame_count = 0"
    ∷ "    local header_len = 0" ∷ "    local trailer_len = 2" ∷ "" ∷ "    local version "
    ∷ "    local sequence" ∷ "    local sysid" ∷ "    local compid" ∷ "    local msgid"
    ∷ "    local msgid_int" ∷ "" ∷ "    while offset < buffer:len() do" ∷ ""
    ∷ "        -- skip until we have a preamble" ∷ "        while (offset < buffer:len()) do"
    ∷ "            if (buffer(offset, 1):uint() == 0xfe) then"
    ∷ "                header_len = 6 -- mavlink1" ∷ "                if (colinfo == \"\") then"
    ∷ "                    colinfo = \"mavlink\"" ∷ "                end" ∷ "                break"
    ∷ "            else if (buffer(offset, 1):uint() == 0xfd) then"
    ∷ "                header_len = 10  -- mavlink2" ∷ "                if (colinfo == \"\") then"
    ∷ "                    colinfo = \"mavlink2\"" ∷ "                end" ∷ "                break"
    ∷ "                end" ∷ "            end" ∷ "            offset = offset + 1" ∷ "        end"
    ∷ "" ∷ "        if (header_len == 0) then" ∷ "            break" ∷ "        end" ∷ ""
    ∷ "        -- HEADER ----------------------------------------" ∷ ""
    ∷ "        -- we need at least header_len bytes to start dissect mavlink."
    ∷ "        local bytes_remaining = buffer:len() - offset"
    ∷ "        if (bytes_remaining < header_len + trailer_len) then"
    ∷ "            pinfo.desegment_offset = offset"
    ∷ "            pinfo.desegment_len = DESEGMENT_ONE_MORE_SEGMENT" ∷ "            break"
    ∷ "        end" ∷ "" ∷ "        local length = buffer(offset + 1, 1)"
    ∷ "        local payload_size = length:uint()"
    ∷ "        local frame_size = header_len + payload_size + trailer_len" ∷ ""
    ∷ "        if (bytes_remaining < frame_size) then"
    ∷ "            -- buf does not contain all the packet data we need."
    ∷ "            pinfo.desegment_offset = offset"
    ∷ "            pinfo.desegment_len = DESEGMENT_ONE_MORE_SEGMENT" ∷ "            break"
    ∷ "        end" ∷ "        " ∷ "        if (header_len == 6) then" ∷ "            -- mavlink1"
    ∷ [])

-- The header and the body of a frame.
unfoldable pub script_body : Text
script_body = lines (
    "            version = buffer(offset, 1)" ∷ "            sequence = buffer(offset + 2, 1)"
    ∷ "            sysid = buffer(offset + 3, 1)" ∷ "            compid = buffer(offset + 4, 1)"
    ∷ "            msgid = buffer(offset + 5, 1)" ∷ "        else" ∷ "            -- mavlink2"
    ∷ "            version = buffer(offset, 1)" ∷ "            sequence = buffer(offset + 4, 1)"
    ∷ "            sysid = buffer(offset + 5, 1)" ∷ "            compid = buffer(offset + 6, 1)"
    ∷ "            msgid = buffer(offset + 7, 3)" ∷ "        end" ∷ ""
    ∷ "        local msgnr = msgid:le_uint()" ∷ "        local subtree" ∷ "        "
    ∷ "        if (messageName[msgnr]) then"
    ∷ "            subtree = tree:add(mavlink_proto, buffer(offset, frame_size), \"mavlink \" .. messageName[msgnr] ..\" (\"..(msgnr)..\")\")"
    ∷ "        else"
    ∷ "            subtree = tree:add(mavlink_proto, buffer(offset, frame_size), \"mavlink msg \" .. msgnr ..\" len \"..(frame_size)..\")\")"
    ∷ "        end" ∷ "" ∷ "        local header = subtree:add(\"Header\")"
    ∷ "        header:add(f.magic,version)" ∷ "        header:add(f.length, length)"
    ∷ "        header:add(f.sequence, sequence)" ∷ "        header:add(f.sysid, sysid)"
    ∷ "        header:add(f.compid, compid)" ∷ "        header:add_le(f.msgid, msgid)" ∷ ""
    ∷ "        -- BODY ----------------------------------------" ∷ "        "
    ∷ "        -- dynamically call the type-specific payload dissector    "
    ∷ "        local dissect_payload_fn = \"dissect_payload_\"..tostring(msgnr) "
    ∷ "        local fn = myfuncs[dissect_payload_fn]" ∷ "        local parser_error = false"
    ∷ "        " ∷ "        -- do not stumble into exceptions while trying to parse junk"
    ∷ "        if (fn == nil) then" ∷ "            parser_error = true" ∷ "        else"
    ∷ "            local payload = subtree:add_le(f.payload, buffer(offset + header_len, payload_size), msgnr)"
    ∷ "            local len_parsed = fn(buffer, payload, offset + header_len, payload_size)"
    ∷ "            colinfo = colinfo .. \" \" .. messageName[msgnr]"
    ∷ "            if (payload_size < len_parsed) and (header_len == 10) then"
    ∷ "                payload:add(\"Payload trimmed by \" .. len_parsed - payload_size .. \" bytes\", buffer(offset, payload_size))"
    ∷ "            end" ∷ "            if (payload_size > len_parsed) then"
    ∷ "                payload:add(\"Payload longer than expected by\" .. payload_size - len_parsed .. \" bytes\", buffer(offset + len_parsed, payload_size - len_parsed))"
    ∷ "            end" ∷ "        end" ∷ "" ∷ "        if (parser_error) then"
    ∷ "            offset = offset + 1" ∷ "        else"
    ∷ "            -- CRC ----------------------------------------"
    ∷ "            local crc = buffer(offset + header_len + payload_size, 2)" ∷ [])

-- The end of a frame, and the ports.
unfoldable pub script_end : Text
script_end = lines (
    "            subtree:add_le(f.crc, crc)" ∷ "            offset = offset + frame_size"
    ∷ "            frame_count = frame_count + 1" ∷ "        end" ∷ "    end" ∷ ""
    ∷ "    -- some Wireshark decoration" ∷ "    if (frame_count) then"
    ∷ "        pinfo.cols.protocol = \"mavlink_proto\"" ∷ "        pinfo.cols.info = colinfo"
    ∷ "    end" ∷ "end" ∷ ""
    ∷ "-- bind protocol dissector to UDP port 14450 used by ArDrone and MissionPlanner "
    ∷ "udp_encap = DissectorTable.get(\"udp.port\")" ∷ "udp_encap:add(14550, mavlink_proto)" ∷ ""
    ∷ "-- bind protocol dissector to TCP  " ∷ "tcp_encap = DissectorTable.get(\"tcp.port\")"
    ∷ "-- port 14555 used by ardupilot emulator script " ∷ "tcp_encap:add(14555, mavlink_proto)"
    ∷ "-- port 14556 used by ardupilot emulator script " ∷ "tcp_encap:add(14556, mavlink_proto)"
    ∷ "-- port 14557 used by ardupilot emulator script " ∷ "tcp_encap:add(14557, mavlink_proto)"
    ∷ "-- port 40115 used by ser2net to capture USB serial traffic "
    ∷ "tcp_encap:add(40115, mavlink_proto)" ∷ "" ∷ [])
